-- ===== src/Api/FastIo.antt =====
-- CNdisApi::InitializeFastIo, AddSecondaryFastIo, ReadPacketsUnsorted, SendPacketsToAdaptersUnsorted
-- and SendPacketsToMstcpUnsorted, which a WOW64 process may not use.
use ndisapi.Base.{ℕ, Bool, false, not, ◌||◌, List, ltb, if◌then◌else◌}
use ndisapi.Driver.{
  IntermediateBuffer, UnsortedRequest, initialize_fast_io, add_second_fast_io_section,
  read_packets_unsorted, send_packet_to_adapter_unsorted, send_packet_to_mstcp_unsorted,
}
use ndisapi.Driver.Sizes.{sizeof_fast_io_section, sizeof_fast_io_params, sizeof_unsorted_request}
use ndisapi.Exec.{Env, Exec, pure, ◌>>=◌}
use ndisapi.Api.{Api, pointer, device_io_control}

module _ {S : Type 0} (env : Env S) (api : Api) where
  pub refuses_fast_io : ℕ → Bool
  refuses_fast_io size =
      not env.is_windows_vista_or_greater
      || api.is_wow64_process
      || ltb size (sizeof_fast_io_section (pointer api))

  pub initialize : ℕ → ℕ → Exec S Bool
  unfolding refuses_fast_io device_io_control
  initialize section size = if refuses_fast_io size then pure false else (do
    reply ←
        device_io_control env api false initialize_fast_io
          (record { header = section; data_size = size }) (sizeof_fast_io_params (pointer api)) tt 0
    pure reply.0)

  pub add_secondary : ℕ → ℕ → Exec S Bool
  unfolding refuses_fast_io device_io_control
  add_secondary section size = if refuses_fast_io size then pure false else (do
    reply ←
        device_io_control env api false add_second_fast_io_section
          (record { header = section; data_size = size }) (sizeof_fast_io_params (pointer api)) tt 0
    pure reply.0)

  -- *pdwPacketsSuccess is the number that the request holds afterwards, whatever the result.
  pub read_unsorted : List IntermediateBuffer → ℕ → ℕ → Exec S (Bool × List IntermediateBuffer × ℕ)
  unfolding device_io_control
  read_unsorted packets number success =
      if api.is_wow64_process then pure (false, packets, success) else (do
        let request : UnsortedRequest = record { packets = packets; packets_num = number }
        reply ←
            device_io_control env api false read_packets_unsorted request
              (sizeof_unsorted_request (pointer api)) request
              (sizeof_unsorted_request (pointer api))
        pure (reply.0, reply.1.packets, reply.1.packets_num))

  pub send_unsorted_to_adapters :
      List IntermediateBuffer → ℕ → ℕ → Exec S (Bool × List IntermediateBuffer × ℕ)
  unfolding device_io_control
  send_unsorted_to_adapters packets number success =
      if api.is_wow64_process then pure (false, packets, success) else (do
        let request : UnsortedRequest = record { packets = packets; packets_num = number }
        reply ←
            device_io_control env api false send_packet_to_adapter_unsorted request
              (sizeof_unsorted_request (pointer api)) request
              (sizeof_unsorted_request (pointer api))
        pure (reply.0, reply.1.packets, reply.1.packets_num))

  pub send_unsorted_to_mstcp :
      List IntermediateBuffer → ℕ → ℕ → Exec S (Bool × List IntermediateBuffer × ℕ)
  unfolding device_io_control
  send_unsorted_to_mstcp packets number success =
      if api.is_wow64_process then pure (false, packets, success) else (do
        let request : UnsortedRequest = record { packets = packets; packets_num = number }
        reply ←
            device_io_control env api false send_packet_to_mstcp_unsorted request
              (sizeof_unsorted_request (pointer api)) request
              (sizeof_unsorted_request (pointer api))
        pure (reply.0, reply.1.packets, reply.1.packets_num))
