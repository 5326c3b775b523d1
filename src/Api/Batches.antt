-- ===== src/Api/Batches.antt =====
-- CNdisApi::SendPacketsToMstcp, SendPacketsToAdapter and ReadPackets: requests with many packets,
-- whose WOW64 forms are built in two blocks of malloc.
pub mod Copies
pub mod Blocks
pub mod Reads
use ndisapi.Base.{
  ℕ, zero, suc, ◌+◌, ◌*◌, ◌%◌, ◌^◌, Bool, true, false, not, ◌&&◌, Option, none, some, List, [], ◌∷◌,
  replicate, ltb, if◌then◌else◌,
}
use ndisapi.Driver.{
  IntermediateBuffer, EthMRequest, send_packets_to_mstcp, send_packets_to_adapter, read_packets,
}
use ndisapi.Driver.Sizes.{
  sizeof_intermediate_buffer_wow64, request_size, request_size_wow64, max_ether_frame,
}
use ndisapi.Exec.{Env, Exec, pure, lift, translate, malloc, free, ◌>>=◌, ◌>>◌}
use ndisapi.Api.{Api, thunks, pointer, device_io_control}
use ndisapi.Api.Packets.{copy_packet}

-- A buffer of the block that memset clears.
pub zero_buffer : IntermediateBuffer
zero_buffer = record {
  link = 0;
  device_flags = 0;
  packet_length = 0;
  flags = 0;
  vlan = 0;
  filter_id = 0;
  reserved = replicate 4 0;
  ibuffer = replicate max_ether_frame 0;
}

-- The loop that copies the first `n` packets into cleared buffers; `none` past the end of the array.
pub copy_out : ℕ → List IntermediateBuffer → Option (List IntermediateBuffer)
unfolding copy_packet zero_buffer
copy_out zero ps = some []
copy_out (suc n) [] = none
copy_out (suc n) (p ∷ ps) = elim (copy_packet zero_buffer p) [
  | none ↦ none
  | some b ↦ elim (copy_out n ps) [ none ↦ none | some bs ↦ some (b ∷ bs) ]
]

-- The loop that copies the first `n` buffers back into the caller's packets.
pub copy_in :
    ℕ → List IntermediateBuffer → List IntermediateBuffer → Option (List IntermediateBuffer)
unfolding copy_packet
copy_in zero dst src = some dst
copy_in (suc n) [] src = none
copy_in (suc n) (d ∷ dst) [] = none
copy_in (suc n) (d ∷ dst) (s ∷ src) = elim (copy_packet d s) [
  | none ↦ none
  | some b ↦ elim (copy_in n dst src) [ none ↦ none | some bs ↦ some (b ∷ bs) ]
]

-- The buffers fill a block of n * sizeof(INTERMEDIATE_BUFFER_WOW64) bytes. Where that product wraps
-- the loops write past the block.
pub buffers_size : ℕ → ℕ
unfolding sizeof_intermediate_buffer_wow64
buffers_size n = n * sizeof_intermediate_buffer_wow64 4 % 2 ^ 32

pub in_block : ℕ → Option (Unit {0})
unfolding sizeof_intermediate_buffer_wow64
in_block n = if ltb (n * sizeof_intermediate_buffer_wow64 4) (2 ^ 32) then some tt else none

-- if (p) free(p);
pub free_if : {S : Type 0} → Bool → Exec S Unit
free_if b = if b then free else pure tt

module _ {S : Type 0} (env : Env S) (api : Api) where
  -- The WOW64 request of the send methods, once both blocks are there.
  pub batch_request : EthMRequest → Exec S EthMRequest
  unfolding copy_out in_block
  batch_request req = do
    adapter ← translate req.adapter
    lift (in_block req.packets_number)
    buffers ← lift (copy_out req.packets_number req.packets)
    pure (record {
      adapter = adapter;
      packets_number = req.packets_number;
      packets_success = 0;
      packets = buffers;
    })

  pub send_blocks : EthMRequest → (EthMRequest → Exec S Bool) → Exec S Bool
  unfolding batch_request
  send_blocks req request_driver = do
    request ← batch_request req
    result ← request_driver request
    free
    free
    pure result

  -- The two send methods are this text, up to the code that goes to the driver.
  pub send_batch_wow64 : EthMRequest → (EthMRequest → Exec S Bool) → Exec S Bool
  unfolding send_blocks free_if buffers_size request_size_wow64
  send_batch_wow64 req request_driver = do
    has_request ← malloc env (request_size_wow64 req.packets_number)
    has_buffers ← malloc env (buffers_size req.packets_number)
    if has_buffers && has_request
        then send_blocks req request_driver
        else (do free_if has_buffers; free_if has_request; pure false)

  pub send_batch_to_mstcp : EthMRequest → Exec S Bool
  unfolding send_batch_wow64 device_io_control
  send_batch_to_mstcp req =
      if thunks api
      then send_batch_wow64 req (λ request. do
        reply ←
            device_io_control env api true send_packets_to_mstcp request
              (request_size_wow64 req.packets_number) tt 0
        pure reply.0)
      else do
        reply ←
            device_io_control env api false send_packets_to_mstcp req
              (request_size (pointer api) req.packets_number) tt 0
        pure reply.0

  pub send_batch_to_adapter : EthMRequest → Exec S Bool
  unfolding send_batch_wow64 device_io_control
  send_batch_to_adapter req =
      if thunks api
      then send_batch_wow64 req (λ request. do
        reply ←
            device_io_control env api true send_packets_to_adapter request
              (request_size_wow64 req.packets_number) tt 0
        pure reply.0)
      else do
        reply ←
            device_io_control env api false send_packets_to_adapter req
              (request_size (pointer api) req.packets_number) tt 0
        pure reply.0

  -- The reply of the WOW64 read: the packets that the driver counts are copied back.
  pub batch_back : EthMRequest → Bool × EthMRequest → Exec S (Bool × EthMRequest)
  unfolding copy_in
  batch_back req (true, out) = do
    packets ← lift (copy_in out.packets_success req.packets out.packets)
    pure (true, record req { packets_success = out.packets_success; packets = packets })
  batch_back req (false, out) = pure (false, req)

  pub read_batch_wow64 : EthMRequest → Exec S (Bool × EthMRequest)
  unfolding batch_back zero_buffer in_block device_io_control buffers_size request_size_wow64
  read_batch_wow64 req = do
    adapter ← translate req.adapter
    lift (in_block req.packets_number)
    let request : EthMRequest = record {
      adapter = adapter;
      packets_number = req.packets_number;
      packets_success = 0;
      packets = replicate req.packets_number zero_buffer;
    }
    reply ←
        device_io_control env api true read_packets request (request_size_wow64 req.packets_number)
          request (request_size_wow64 req.packets_number)
    result ← batch_back req reply
    free
    free
    pure result

  pub read_batch_blocks : EthMRequest → Exec S (Bool × EthMRequest)
  unfolding read_batch_wow64
  read_batch_blocks req = do
    has_request ← malloc env (request_size_wow64 req.packets_number)
    if not has_request then pure (false, req) else (do
      has_buffers ← malloc env (buffers_size req.packets_number)
      if has_buffers then read_batch_wow64 req else (do free_if has_request; pure (false, req)))

  pub read_batch : EthMRequest → Exec S (Bool × EthMRequest)
  unfolding read_batch_blocks device_io_control
  read_batch req =
      if thunks api
      then read_batch_blocks req
      else device_io_control env api false read_packets req
          (request_size (pointer api) req.packets_number) req
          (request_size (pointer api) req.packets_number)
