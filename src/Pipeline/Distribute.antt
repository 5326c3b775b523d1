-- ===== src/Pipeline/Distribute.antt =====
-- What packet_process_thread makes of a block that a read has filled.
use ndisapi.Base.{
  ◌^◌, ◌≤◌, ◌<◌, ◌≡◌, refl, sym, ap, arith, List, [], Option, none, some, length, take,
}
use mathlib.Core.Path.{subst}
use ndisapi.Pipeline.Loads.{Leads, here, Leads-follow, Loads}
use ndisapi.Pipeline.Rounds.{answers, final, routed, loop}
use ndisapi.Pipeline.{Packet, Block, Answer, Callbacks, to_adapter, to_mstcp, process_block, loaded}

-- A block that is ready for the thread: as it is filled by a read into empty requests.
pub record Ready (b : Block) : Type 0 where
  pub adapter_empty : b.write_adapter_request.packets_number ≡ 0
  pub mstcp_empty : b.write_mstcp_request.packets_number ≡ 0
  pub adapter_size : length b.write_adapter_request.buffers ≡ length b.packets
  pub mstcp_size : length b.write_mstcp_request.buffers ≡ length b.packets
  pub small : length b.packets < 2 ^ 32
  pub success : b.read_request.packets_success ≤ length b.packets

-- The packets that the driver put into a block.
unfoldable pub arrived : Block → List Packet
arrived b = take b.read_request.packets_success b.packets

-- What the thread made of a block.
pub record Distributed {S : Type 0} (b b' : Block) (xs : List (Answer S)) : Type 0 where
  pub adapter_loaded : loaded b'.packets b'.write_adapter_request ≡ some (routed to_adapter xs)
  pub mstcp_loaded : loaded b'.packets b'.write_mstcp_request ≡ some (routed to_mstcp xs)
  pub adapter_bound : b'.write_adapter_request.packets_number ≤ b.read_request.packets_success
  pub mstcp_bound : b'.write_mstcp_request.packets_number ≤ b.read_request.packets_success
  pub adapter_size : length b'.write_adapter_request.buffers ≡ length b'.packets
  pub mstcp_size : length b'.write_mstcp_request.buffers ≡ length b'.packets
  pub same_length : length b'.packets ≡ length b.packets
  pub read_reset : b'.read_request.packets_success ≡ 0
  pub same_handle : b'.read_request.adapter_handle ≡ b.read_request.adapter_handle

pub Ready-Loads : {b : Block} → Ready b → Loads b 0 [] []
Ready-Loads {b} r = record {
  adapter_leads =
      subst (λ n. Leads b.packets 0 n b.write_adapter_request.buffers []) (sym r.adapter_empty)
        here;
  mstcp_leads =
      subst (λ n. Leads b.packets 0 n b.write_mstcp_request.buffers []) (sym r.mstcp_empty) here;
  adapter_number = omega (arith, r.adapter_empty);
  mstcp_number = omega (arith, r.mstcp_empty);
  adapter_size = r.adapter_size;
  mstcp_size = r.mstcp_size;
  small = r.small;
}

-- With a block that is ready, whatever the callbacks do, the processing thread stays inside its
-- arrays; afterwards the request for the adapter names the packets whose answer sends them to the
-- adapter, as the callback left them and in the order in which they were read, the request for the
-- stack those that go to the stack, and no packet else.
pub process_block-Distributed :
    {S : Type 0} (cs : Callbacks S) (u : S) (b : Block)
    → Ready b
    → (let xs = answers cs u b.read_request.adapter_handle (arrived b) in
        (b' : Block) × (process_block cs u b ≡ some (final u xs, b')) × Distributed b b' xs)
unfolding process_block arrived loaded
process_block-Distributed {S} cs u b r =
    let q = loop cs b.read_request.packets_success 0 u b (Ready-Loads r) (omega arith) r.success in
    (
      record q.block { read_request = record q.block.read_request { packets_success = 0 } },
      ap
          (λ o. elim o as (λ _. Option (S × Block)) [
            | none ↦ none
            | some p ↦
                some (
                  p.0,
                  record p.1 { read_request = record p.1.read_request { packets_success = 0 } },
                )
          ])
          q.returns,
      record {
        adapter_loaded = Leads-follow q.loads.adapter_leads;
        mstcp_loaded = Leads-follow q.loads.mstcp_leads;
        adapter_bound = q.loads.adapter_number;
        mstcp_bound = q.loads.mstcp_number;
        adapter_size = q.loads.adapter_size;
        mstcp_size = q.loads.mstcp_size;
        same_length = q.same_length;
        read_reset = refl;
        same_handle = ap (λ t. t.adapter_handle) q.same_read;
      },
    )
