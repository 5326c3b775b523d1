-- ===== src/Api/Tests/Packets.antt =====
-- The theorems on the requests that carry packets, on the machine of the tests.
use ndisapi.Base.{ℕ, ◌≡◌, refl, Bool, true, some, [], ◌∷◌, arith}
use ndisapi.Driver.{
  IntermediateBuffer, EthRequest, EthMRequest, send_packet_to_mstcp, send_packet_to_adapter,
}
use ndisapi.Driver.Sizes.{sizeof_eth_request_wow64, sizeof_intermediate_buffer_wow64}
use ndisapi.Handles.Tests.{adapter1, two_table-first}
use ndisapi.Exec.{World, pure, ◌>>=◌}
use ndisapi.Api.{device_io_control}
use ndisapi.Api.Packets.{send_to_mstcp, send_to_adapter, read_one}
use ndisapi.Api.Packets.Thunks.{SamePacket, ReadBack, sends-SamePacket, read_one-Received}
use ndisapi.Api.Batches.{read_batch, send_batch_to_mstcp, send_batch_to_adapter}
use ndisapi.Api.Batches.Reads.{Filled, read_batch-Filled}
use ndisapi.Api.Batches.Blocks.{send_batches-Balanced}
use ndisapi.Api.Tests.{junk, packet, packet-Fits, machine, client, start, one_packet, stack-size}

sends-SamePacket_example :
    ((b : IntermediateBuffer) × SamePacket b packet
      × (send_to_mstcp machine client one_packet start
          ≡ (device_io_control machine client true send_packet_to_mstcp
                  (record { adapter = adapter1; buffer = b })
                  sizeof_eth_request_wow64
                  tt
                  0
                >>= λ reply. pure reply.0)
              start))
    × ((b : IntermediateBuffer) × SamePacket b packet
        × (send_to_adapter machine client one_packet start
            ≡ (device_io_control machine client true send_packet_to_adapter
                    (record { adapter = adapter1; buffer = b })
                    sizeof_eth_request_wow64
                    tt
                    0
                  >>= λ reply. pure reply.0)
                start))
sends-SamePacket_example =
    sends-SamePacket machine client one_packet start adapter1 refl packet-Fits stack-size
      two_table-first

-- The caller's buffer has other bytes than the packet that arrives.
abbrev awaiting : EthRequest
awaiting = record { adapter = 1; buffer = junk }

abbrev arrived : EthRequest
arrived = record { adapter = adapter1; buffer = packet }

read_one-Received_example :
    (req' : EthRequest) × (read_one machine client awaiting start
      ≡ some ((true, req'), record start { sys = 1; bytes_returned = sizeof_eth_request_wow64 }))
    × (req'.adapter ≡ 1)
    × ReadBack true junk packet req'.buffer
unfolding device_io_control
read_one-Received_example =
    read_one-Received machine client awaiting start adapter1 refl stack-size two_table-first true
      arrived (record start { sys = 1; bytes_returned = sizeof_eth_request_wow64 })
      (λ _. packet-Fits) refl

abbrev two_packets : EthMRequest
two_packets = record {
  adapter = 1;
  packets_number = 2;
  packets_success = 0;
  packets = packet ∷ packet ∷ [];
}

send_batches-Balanced_example :
    ((ok : Bool) × (w' : World ℕ) × (send_batch_to_mstcp machine client two_packets start
        ≡ some (ok, w'))
      × (w'.blocks ≡ 0))
    × ((ok : Bool) × (w' : World ℕ) × (send_batch_to_adapter machine client two_packets start
          ≡ some (ok, w'))
        × (w'.blocks ≡ 0))
unfolding sizeof_intermediate_buffer_wow64
send_batches-Balanced_example =
    send_batches-Balanced machine client two_packets start adapter1 refl
      (packet-Fits, (packet-Fits, tt)) (omega arith) two_table-first

read_batch-Filled_example :
    (ok : Bool) × (req' : EthMRequest) × (w' : World ℕ) × (read_batch machine client two_packets
        start
      ≡ some ((ok, req'), w'))
    × (w'.blocks ≡ 0)
    × Filled machine client two_packets start adapter1 ok req'
unfolding sizeof_intermediate_buffer_wow64
read_batch-Filled_example =
    read_batch-Filled machine client two_packets start adapter1 refl
      ((packet-Fits.array, tt), (packet-Fits, tt)) (omega arith) two_table-first
