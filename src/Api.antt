-- ===== src/Api.antt =====
-- The object CNdisApi of ndisapi/ndisapi.cpp and its DeviceIoControl. The children hold the other
-- methods.
pub mod Packets
pub mod Batches
pub mod Modes
pub mod Events
pub mod Oid
pub mod Filters
pub mod FastIo
pub mod Adapters
mod Tests
use ndisapi.Base.{ℕ, ◌≡◌, refl, Bool, true, false, Option, some, ◌&&◌, not, if◌then◌else◌}
use ndisapi.Driver.{Ioctl, In, Out}
use ndisapi.Exec.{Env, Exec, World}

-- m_hFileHandle != INVALID_HANDLE_VALUE, m_ovlp.hEvent != 0, m_bIsLoadSuccessfully,
-- m_bIsWow64Process; and whether the code is built with _WIN64.
pub record Api : Type 0 where
  pub win64 : Bool
  pub file_open : Bool
  pub has_event : Bool
  pub is_load_successfully : Bool
  pub is_wow64_process : Bool

-- The tests `#ifndef _WIN64` with `if (m_bIsWow64Process)`.
abbrev pub thunks : Api → Bool
thunks api = not api.win64 && api.is_wow64_process

-- sizeof(HANDLE)
abbrev pub pointer : Api → ℕ
pointer api = if api.win64 then 8 else 4

module _ {S : Type 0} (env : Env S) (api : Api) where
  pub device_io_control : Bool → (c : Ioctl) → In c → ℕ → Out c → ℕ → Exec S (Bool × Out c)
  device_io_control wow64 c input size_in output size_out w =
      let r = env.ioctl w.sys wow64 c input size_in output size_out in
      if api.file_open
      then some ((r.ok, r.out), record w { sys = r.next; bytes_returned = r.returned })
      else some ((false, output), w)

  -- A request returns, and changes only the outside and m_BytesReturned.
  pub device_io_control_lem :
      (wow64 : Bool) (c : Ioctl) (i : In c) (n : ℕ) (o : Out c) (m : ℕ) (w : World S)
      → (ok : Bool) × (out : Out c) × (s : S) × (returned : ℕ) × (device_io_control wow64 c i n o m
            w
          ≡ some ((ok, out), record w { sys = s; bytes_returned = returned }))
  unfolding device_io_control
  device_io_control_lem wow64 c i n o m w = go api.file_open
    where
      go :
          (b : Bool)
          → let r = env.ioctl w.sys wow64 c i n o m in
            let made : Option ((Bool × Out c) × World S) =
              some ((r.ok, r.out), record w { sys = r.next; bytes_returned = r.returned }) in
            let skipped : Option ((Bool × Out c) × World S) = some ((false, o), w) in
            (ok : Bool) × (out : Out c) × (s : S) × (returned : ℕ) × ((if b then made else skipped)
              ≡ some ((ok, out), record w { sys = s; bytes_returned = returned }))
      go true = (_, _, _, _, refl)
      go false = (_, _, _, _, refl)
