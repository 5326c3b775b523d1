-- ===== src/Api/Oid.antt =====
-- CNdisApi::NdisrdRequest, and SetHwPacketFilter and GetHwPacketFilter, which call it.
pub mod Requests
pub mod Dword
use ndisapi.Base.{
  ℕ, ◌+◌, ◌*◌, ◌/◌, ◌%◌, ◌^◌, Bool, true, false, not, ◌&&◌, Option, none, some, List, [], ◌∷◌, take,
  length, get_or, leb, ltb, if◌then◌else◌, ◌==◌,
}
use ndisapi.Driver.{Ioctl, OidData, ndis_set_request, ndis_get_request}
use ndisapi.Driver.Sizes.{oid_size, oid_size_wow64}
use ndisapi.Exec.{
  Env, Exec, pure, lift, translate, ask, call, malloc, free, create_event, close_handle, ◌>>=◌,
  ◌>>◌,
}
use ndisapi.Api.{Api, thunks, pointer, device_io_control}
use ndisapi.Api.Packets.{copy_bytes}

-- a DWORD as the four bytes of Data
pub dword_bytes : ℕ → List ℕ
dword_bytes v = v % 256 ∷ v / 2 ^ 8 % 256 ∷ v / 2 ^ 16 % 256 ∷ v / 2 ^ 24 % 256 ∷ []

pub bytes_dword : List ℕ → ℕ
bytes_dword b = get_or b 0 0 + get_or b 1 0 * 2 ^ 8 + get_or b 2 0 * 2 ^ 16 + get_or b 3 0 * 2 ^ 24

pub hw_filter_request : ℕ → List ℕ → OidData
hw_filter_request adapter bytes = record {
  adapter = adapter;
  oid = 0x0001010E;
  data_length = 4;
  contents = bytes;
}

-- (DWORD)Set ? IOCTL_NDISRD_NDIS_SET_REQUEST : IOCTL_NDISRD_NDIS_GET_REQUEST; both take and give
-- OID data.
-- The fields and the bytes are inside the block of the WOW64 branch: the size that malloc is asked for,
-- a DWORD, has not wrapped.
pub oid_in_block : ℕ → Option (Unit {0})
oid_in_block n = if ltb (n + 16) (2 ^ 32) then some tt else none

module _ {S : Type 0} (env : Env S) (api : Api) where
  pub oid_request : Bool → Bool → OidData → ℕ → Exec S (Bool × OidData)
  unfolding device_io_control
  oid_request wow64 true d size = device_io_control env api wow64 ndis_set_request d size d size
  oid_request wow64 false d size = device_io_control env api wow64 ndis_get_request d size d size

  pub oid_wait : Bool → OidData → Exec S OidData
  oid_wait true d = call (λ s. env.wait s ndis_set_request d)
  oid_wait false d = call (λ s. env.wait s ndis_get_request d)

  -- OidData64->Data: the caller's bytes for a set, whatever the block holds for a get.
  pub oid_bytes : Bool → OidData → Exec S (List ℕ)
  oid_bytes true d =
      lift (
        if leb d.data_length (length d.contents)
        then some (take d.data_length d.contents)
        else none)
  oid_bytes false d = ask (λ s. env.block_bytes s d.data_length)

  -- memmove(OidData->Data, OidData64->Data, OidData64->Length) and the length, for a get
  pub oid_back : Bool → OidData → OidData → Exec S OidData
  oid_back true d d64 = pure d
  oid_back false d d64 = do
    bytes ← lift (copy_bytes d64.data_length d64.contents d.contents)
    pure (record d { data_length = d64.data_length; contents = bytes })

  -- What follows the WOW64 request, from its reply and from whether it is pending. Beside the
  -- caller's data: `false` where the method returns FALSE, the event closed already.
  pub oid_wow64_reply : Bool → OidData → Bool × OidData → Bool → Exec S (Bool × OidData)
  unfolding oid_wait oid_back
  oid_wow64_reply set d (ok, d64) pending =
      if not ok && pending
      then (do d64' ← oid_wait set d64; d' ← oid_back set d d64'; free; pure (true, d'))
      else if not ok
      then (do close_handle; free; pure (false, d))
      else (do free; pure (true, d))

  pub oid_wow64_block : Bool → OidData → Exec S (Bool × OidData)
  unfolding oid_request oid_bytes oid_wow64_reply oid_in_block
  oid_wow64_block set d = do
    adapter ← translate d.adapter
    lift (oid_in_block d.data_length)
    bytes ← oid_bytes set d
    let request : OidData = record d { adapter = adapter; contents = bytes }
    reply ← oid_request true set request (oid_size_wow64 d.data_length)
    pending ← ask env.io_pending
    oid_wow64_reply set d reply pending

  pub oid_wow64 : Bool → OidData → Exec S (Bool × OidData)
  unfolding oid_wow64_block
  oid_wow64 set d = do
    has_block ← malloc env (oid_size_wow64 d.data_length)
    if has_block then oid_wow64_block set d else pure (true, d)

  pub oid_native : Bool → OidData → Exec S (Bool × OidData)
  unfolding oid_request oid_wait
  oid_native set d = do
    reply ← oid_request false set d (oid_size (pointer api) d.data_length)
    pending ← ask env.io_pending
    if not reply.0 && pending
        then (do d' ← oid_wait set reply.1; pure (true, d'))
        else if reply.0
        then pure (true, reply.1)
        else (do close_handle; pure (false, reply.1))

  -- The end of the method: the request succeeded if the length did not change.
  pub oid_end : ℕ → Bool × OidData → Exec S (Bool × OidData)
  oid_end size (false, d') = pure (false, d')
  oid_end size (true, d') = do close_handle; pure (size == d'.data_length, d')

  pub ndisrd_request : OidData → Bool → Exec S (Bool × OidData)
  unfolding oid_wow64 oid_native oid_end
  ndisrd_request d set = do
    has_event ← create_event env
    if not has_event then pure (false, d) else (do
      reset ← call env.reset_event
      if not reset then (do close_handle; pure (false, d)) else (do
        result ← (if thunks api then oid_wow64 set d else oid_native set d)
        oid_end d.data_length result))

  pub set_hw_packet_filter : ℕ → ℕ → Exec S Bool
  unfolding ndisrd_request dword_bytes hw_filter_request
  set_hw_packet_filter adapter filter = do
    has_block ← malloc env (oid_size (pointer api) 4)
    if not has_block then pure false else (do
      reply ← ndisrd_request (hw_filter_request adapter (dword_bytes filter)) true
      free
      pure reply.0)

  pub get_hw_packet_filter : ℕ → ℕ → Exec S (Bool × ℕ)
  unfolding ndisrd_request bytes_dword hw_filter_request
  get_hw_packet_filter adapter filter = do
    has_block ← malloc env (oid_size (pointer api) 4)
    if not has_block then pure (false, filter) else (do
      bytes ← ask (λ s. env.block_bytes s 4)
      reply ← ndisrd_request (hw_filter_request adapter bytes) false
      free
      pure (reply.0, if reply.0 then bytes_dword reply.1.contents else filter))
