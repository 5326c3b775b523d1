-- ===== src/Api/Packets.antt =====
-- CNdisApi::SendPacketToMstcp, SendPacketToAdapter and ReadPacket: one packet, and the copies between
-- INTERMEDIATE_BUFFER and INTERMEDIATE_BUFFER_WOW64.
pub mod Thunks
use ndisapi.Base.{
  ℕ, ◌+◌, Bool, true, false, ◌&&◌, Option, none, some, List, ◌++◌, length, take, drop, leb,
  if◌then◌else◌,
}
use ndisapi.Driver.{
  IntermediateBuffer, EthRequest, send_packet_to_mstcp, send_packet_to_adapter, read_packet,
}
use ndisapi.Driver.Sizes.{sizeof_eth_request, sizeof_eth_request_wow64}
use ndisapi.Exec.{Env, Exec, pure, lift, ask, translate, ◌>>=◌}
use ndisapi.Api.{Api, thunks, pointer, device_io_control}

-- memmove(dst, src, n) between two arrays; `none` where it would leave one of them
pub copy_bytes : ℕ → List ℕ → List ℕ → Option (List ℕ)
copy_bytes n src dst =
    if leb n (length src) && leb n (length dst) then some (take n src ++ drop n dst) else none

-- The copies of the members, and of m_Length bytes of the packet. The union at the start is left.
unfoldable pub copy_packet : IntermediateBuffer → IntermediateBuffer → Option IntermediateBuffer
unfolding copy_bytes
copy_packet dst src = elim (copy_bytes src.packet_length src.ibuffer dst.ibuffer) [
  | none ↦ none
  | some body ↦ some (record {
    link = dst.link;
    device_flags = src.device_flags;
    packet_length = src.packet_length;
    flags = src.flags;
    vlan = src.vlan;
    filter_id = src.filter_id;
    reserved = src.reserved;
    ibuffer = body;
  })
]

module _ {S : Type 0} (env : Env S) (api : Api) where
  -- The WOW64 request of the send methods: a copy of the packet, and the driver's handle.
  pub wow64_request : EthRequest → Exec S EthRequest
  unfolding copy_packet
  wow64_request req = do
    local ← ask env.stack_buffer
    buffer ← lift (copy_packet local req.buffer)
    adapter ← translate req.adapter
    pure (record { adapter = adapter; buffer = buffer })

  pub send_to_mstcp : EthRequest → Exec S Bool
  unfolding wow64_request device_io_control
  send_to_mstcp req =
      if thunks api
      then (do
        request ← wow64_request req
        reply ←
            device_io_control env api true send_packet_to_mstcp request sizeof_eth_request_wow64 tt
              0
        pure reply.0)
      else (do
        reply ←
            device_io_control env api false send_packet_to_mstcp req
              (sizeof_eth_request (pointer api)) tt 0
        pure reply.0)

  pub send_to_adapter : EthRequest → Exec S Bool
  unfolding wow64_request device_io_control
  send_to_adapter req =
      if thunks api
      then (do
        request ← wow64_request req
        reply ←
            device_io_control env api true send_packet_to_adapter request sizeof_eth_request_wow64
              tt 0
        pure reply.0)
      else (do
        reply ←
            device_io_control env api false send_packet_to_adapter req
              (sizeof_eth_request (pointer api)) tt 0
        pure reply.0)

  -- What ReadPacket does with the reply of the WOW64 request.
  pub copy_back : EthRequest → Bool × EthRequest → Exec S (Bool × EthRequest)
  unfolding copy_packet
  copy_back req (true, out) = do
    buffer ← lift (copy_packet req.buffer out.buffer)
    pure (true, record req { buffer = buffer })
  copy_back req (false, out) = pure (false, req)

  pub read_one : EthRequest → Exec S (Bool × EthRequest)
  unfolding copy_back device_io_control
  read_one req =
      if thunks api
      then (do
        local ← ask env.stack_buffer
        adapter ← translate req.adapter
        let request : EthRequest = record { adapter = adapter; buffer = local }
        reply ←
            device_io_control env api true read_packet request sizeof_eth_request_wow64 request
              sizeof_eth_request_wow64
        copy_back req reply)
      else device_io_control env api false read_packet req (sizeof_eth_request (pointer api)) req
          (sizeof_eth_request (pointer api))
