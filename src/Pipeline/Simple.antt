-- ===== src/Pipeline/Simple.antt =====
-- simple_packet_filter of examples/cpp/common/ndisapi/simple_packet_filter.h: the filter with one
-- thread, which reads, asks the callbacks, and writes to the network and then to the stack, with one
-- block of packets. The loop over the packets has the text of queued_packet_filter's.
pub mod Rounds
pub mod Turns
use ndisapi.Base.{
  ℕ, ◌≤◌, ◌≡◌, refl, sym, ap, ◌∙◌, arith, List, [], ◌∷◌, ◌++◌, append_assoc, Option, none, some,
  length, take,
}
use mathlib.Core.Path.{subst}
use ndisapi.Pipeline.{
  Packet, Block, Callbacks, Answer, to_adapter, to_mstcp, process_packets, loaded, write_mstcp,
  write_adapter,
}
use ndisapi.Pipeline.Threads.{reading, processing, filled}
use ndisapi.Pipeline.Loads.{Leads-follow, Loads}
use ndisapi.Pipeline.Rounds.{answers, final, routed, Result, loop}
use ndisapi.Pipeline.Distribute.{Ready-Loads}
use ndisapi.Pipeline.Sound.{Fits}
use ndisapi.Pipeline.Sound.Blocks.{
  loaded-empty, filled-Fits, Fits-Ready, sent_mstcp, sent_adapter, write_mstcp_lem,
  write_adapter_lem,
}
use ndisapi.Pipeline.Flow.Segments.{answers-append, final-append, routed-append}

-- What ReadPackets puts into the block, where it succeeds.
pub record Read : Type 0 where
  pub packets : List Packet
  pub success : ℕ

-- After some rounds: the state of the callbacks, the block, and what was handed over.
pub record Turn (S : Type 0) : Type 0 where
  pub user : S
  pub block : Block
  pub to_network : List Packet
  pub to_stack : List Packet

-- dwPacketsSuccess = 0
pub reset : Block → Block
reset b = record b { read_request = record b.read_request { packets_success = 0 } }

module _ {S : Type 0} (cs : Callbacks S) where
  -- One round of the inner loop of filter_working_thread.
  pub turn : S → Block → Read → Option (Turn S)
  unfolding process_packets write_adapter write_mstcp reset
  turn u b r = elim (process_packets r.success 0 cs u (filled b r.packets r.success)) [
    | none ↦ none
    | some p ↦ elim (write_adapter p.1) [
      | none ↦ none
      | some q ↦ elim (write_mstcp q.1) [
        | none ↦ none
        | some t ↦ some (record { user = p.0; block = reset t.1; to_network = q.0; to_stack = t.0 })
      ]
    ]
  ]

  -- The rounds, while ReadPackets succeeds and the filter runs.
  pub turns : S → Block → List Read → Option (Turn S)
  unfolding turn
  turns u b [] = some (record { user = u; block = b; to_network = []; to_stack = [] })
  turns u b (r ∷ rs) = elim (turn u b r) [
    | none ↦ none
    | some t ↦ elim (turns t.user t.block rs) [
      | none ↦ none
      | some t' ↦ some (record t' {
        to_network = t.to_network ++ t'.to_network;
        to_stack = t.to_stack ++ t'.to_stack;
      })
    ]
  ]
