-- ===== src/Pipeline.antt =====
-- The blocks of packets that queued_packet_filter of examples/cpp/common/ndisapi/
-- queued_packet_filter.h moves through its queues, and what its processing thread does with one.

mod Loads
mod Rounds
mod Distribute
pub mod Dealt
pub mod Threads
mod Stages
mod Sound
mod Flow
mod Stuck
mod Failed
mod Progress
mod Delivery
mod Simple
mod Tests
pub mod System
use ndisapi.Base.{
  ℕ, zero, suc, ◌+◌, ◌%◌, ◌^◌, List, [], ◌∷◌, Option, none, some, ltb, ◌==◌, if◌then◌else◌, length,
  get_elem?, set, replicate,
}

abbrev packet_flag_on_send : ℕ
packet_flag_on_send = 1

abbrev packet_flag_on_receive : ℕ
packet_flag_on_receive = 2

abbrev pub maximum_packet_block : ℕ
maximum_packet_block = 510

abbrev pub maximum_block_num : ℕ
maximum_block_num = 10

-- INTERMEDIATE_BUFFER: m_dwDeviceFlags and the frame
pub record Packet : Type 0 where
  pub device_flags : ℕ
  pub frame : List ℕ

-- ETH_M_REQUEST. A Buffer is null or points to a packet of the block, by its place.
pub record Request : Type 0 where
  pub adapter_handle : ℕ
  pub packets_number : ℕ
  pub packets_success : ℕ
  pub buffers : List (Option ℕ)

-- packet_block
pub record Block : Type 0 where
  pub packets : List Packet
  pub read_request : Request
  pub write_adapter_request : Request
  pub write_mstcp_request : Request

pub places : ℕ → ℕ → List (Option ℕ)
places zero i = []
places (suc n) i = some i ∷ places n (suc i)

pub empty_request : ℕ → ℕ → Request
empty_request size adapter = record {
  adapter_handle = adapter;
  packets_number = 0;
  packets_success = 0;
  buffers = replicate size none;
}

-- The constructor of packet_block.
pub make_block : ℕ → ℕ → Block
unfolding places empty_request
make_block size adapter = record {
  packets = replicate size (record { device_flags = 0; frame = [] });
  read_request = record (empty_request size adapter) {
    packets_number = size;
    buffers = places size 0;
  };
  write_adapter_request = empty_request size adapter;
  write_mstcp_request = empty_request size adapter;
}

pub data PacketAction : Type 0 where
  pass drop revert : PacketAction

-- What a callback gives back: its action, the packet that it may have changed, and its own state.
pub record Answer (S : Type 0) : Type 0 where
  pub action : PacketAction
  pub packet : Packet
  pub user : S

abbrev pub Callback : Type 0 → Type 0
Callback S = S → ℕ → Packet → Answer S

-- filter_outgoing_packet_ and filter_incoming_packet_, which may be null
pub record Callbacks (S : Type 0) : Type 0 where
  pub outgoing : Option (Callback S)
  pub incoming : Option (Callback S)

-- Where the thread puts a packet.
pub data Target : Type 0 where
  to_adapter to_mstcp nowhere : Target

-- The tests read the flags again, after the callback.
pub target : PacketAction → ℕ → Target
target pass flags = if flags == packet_flag_on_send then to_adapter else to_mstcp
target drop flags = nowhere
target revert flags = if flags == packet_flag_on_receive then to_adapter else to_mstcp

-- EthPacket[dwPacketsNumber].Buffer = &packet[i]; ++dwPacketsNumber. A write behind the array is
-- a fault.
pub push_buffer : ℕ → Request → Option Request
push_buffer i r =
    if ltb r.packets_number (length r.buffers)
    then some (record r {
      packets_number = (r.packets_number + 1) % 2 ^ 32;
      buffers = set r.buffers r.packets_number (some i);
    })
    else none

pub put_packet : Target → ℕ → Block → Option Block
unfolding push_buffer
put_packet nowhere i b = some b
put_packet to_adapter i b = elim (push_buffer i b.write_adapter_request) [
  | none ↦ none
  | some r ↦ some (record b { write_adapter_request = r })
]
put_packet to_mstcp i b = elim (push_buffer i b.write_mstcp_request) [
  | none ↦ none
  | some r ↦ some (record b { write_mstcp_request = r })
]

module _ {S : Type 0} where
  -- The packet passes where there is no callback.
  call_filter : Option (Callback S) → S → ℕ → Packet → Answer S
  call_filter none u h p = record { action = pass; packet = p; user = u }
  call_filter (some f) u h p = f u h p

  pub ask_filter : Callbacks S → S → ℕ → Packet → Answer S
  unfolding call_filter
  ask_filter cs u h p =
      if p.device_flags == packet_flag_on_send
      then call_filter cs.outgoing u h p
      else call_filter cs.incoming u h p

  -- The loop over the packets of the block, from the place `i` on, for `n` packets.
  pub process_packets : ℕ → ℕ → Callbacks S → S → Block → Option (S × Block)
  unfolding ask_filter target put_packet
  process_packets zero i cs u b = some (u, b)
  process_packets (suc n) i cs u b = elim (get_elem? b.packets i) [
    | none ↦ none
    | some p ↦
        let a = ask_filter cs u b.read_request.adapter_handle p in
        elim (put_packet (target a.action a.packet.device_flags) i
          (record b { packets = set b.packets i a.packet })) [
            | none ↦ none
            | some b' ↦ process_packets n (suc i) cs a.user b'
          ]
  ]

  -- What packet_process_thread does with a block that it took.
  pub process_block : Callbacks S → S → Block → Option (S × Block)
  unfolding process_packets
  process_block cs u b = elim (process_packets b.read_request.packets_success 0 cs u b) [
    | none ↦ none
    | some p ↦
        some (p.0, record p.1 { read_request = record p.1.read_request { packets_success = 0 } })
  ]

-- The packets that a request names, its first `n` Buffers followed; none if one is null or leads
-- outside the block.
pub follow : List Packet → ℕ → List (Option ℕ) → Option (List Packet)
follow ps zero bs = some []
follow ps (suc n) [] = none
follow ps (suc n) (none ∷ bs) = none
follow ps (suc n) (some i ∷ bs) = elim (get_elem? ps i) [
  | none ↦ none
  | some p ↦ elim (follow ps n bs) [ none ↦ none | some qs ↦ some (p ∷ qs) ]
]

pub loaded : List Packet → Request → Option (List Packet)
unfolding follow
loaded ps r = follow ps r.packets_number r.buffers

-- What the writing threads hand over: all the packets of the request, which is then emptied.
pub write_mstcp : Block → Option (List Packet × Block)
unfolding loaded
write_mstcp b =
    if b.write_mstcp_request.packets_number == 0
    then some ([], b)
    else elim (loaded b.packets b.write_mstcp_request) [
      | none ↦ none
      | some ps ↦ some (
        ps,
        record b { write_mstcp_request = record b.write_mstcp_request { packets_number = 0 } },
      )
    ]

pub write_adapter : Block → Option (List Packet × Block)
unfolding loaded
write_adapter b =
    if b.write_adapter_request.packets_number == 0
    then some ([], b)
    else elim (loaded b.packets b.write_adapter_request) [
      | none ↦ none
      | some ps ↦ some (
        ps,
        record b { write_adapter_request = record b.write_adapter_request { packets_number = 0 } },
      )
    ]
