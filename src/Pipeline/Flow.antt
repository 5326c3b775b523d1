-- ===== src/Pipeline/Flow.antt =====
-- The packets that are on their way through queued_packet_filter, in the order in which they leave.
pub mod Segments
mod Order
mod Work
mod Written
pub mod Keep
use ndisapi.Base.{ℕ, ◌≡◌, Bool, true, false, List, [], ◌∷◌, ◌++◌, Option, none, some}
use ndisapi.Pipeline.{Packet, Block, Callbacks, to_adapter, to_mstcp, loaded}
use ndisapi.Pipeline.Distribute.{arrived}
use ndisapi.Pipeline.Rounds.{answers, final, routed}
use ndisapi.Pipeline.Threads.{
  FilterState, stopped, starting, running, stopping, Stage, reading, processing, mstcp_writing,
  adapter_writing, next_stage, Pc, hold, out, System, Log,
}

abbrev pub or_nothing : Option (List Packet) → List Packet
or_nothing none = []
or_nothing (some ps) = ps

-- The packets that a block is to hand to the stack, and to the network.
pub for_stack : Block → List Packet
for_stack b = or_nothing (loaded b.packets b.write_mstcp_request)

pub for_network : Block → List Packet
for_network b = or_nothing (loaded b.packets b.write_adapter_request)

module _ (f : Block → List Packet) where
  abbrev pub of_taken : Pc → List Packet
  of_taken (hold b) = f b
  of_taken p = []

  abbrev pub of_ready : Pc → List Packet
  of_ready (out b) = f b
  of_ready p = []

  abbrev pub of_queue : List Block → List Packet
  of_queue [] = []
  of_queue (b ∷ q) = f b ++ of_queue q

  -- From the thread of a stage, that is to push, to the next one, that has taken.
  unfoldable pub segment : {S : Type 0} → System S → Stage → List Packet
  segment s i =
      of_taken (s.pc (next_stage i)) ++ (of_queue (s.queue (next_stage i)) ++ of_ready (s.pc i))

unfoldable pub waiting : {S : Type 0} → System S → List Packet
unfolding segment
waiting s = segment arrived s reading

unfoldable pub stack_bound : {S : Type 0} → System S → List Packet
unfolding segment
stack_bound s = segment for_stack s processing

unfoldable pub network_bound : {S : Type 0} → System S → List Packet
unfolding segment
network_bound s = segment for_network s mstcp_writing ++ segment for_network s processing

-- The filter, as one loop over the packets would do it: what was read is what has been processed and
-- what waits; and what was handed over, with what is on its way, is what the answers to the
-- processed packets send to each side.
pub record Flow {S : Type 0} (cs : Callbacks S) (s : System S) : Type 0 where
  pub processed : List Packet
  pub read : s.log.read ≡ processed ++ waiting s
  pub user : s.user ≡ final s.log.origin (answers cs s.log.origin s.log.handle processed)
  pub stack :
      routed to_mstcp (answers cs s.log.origin s.log.handle processed)
      ≡ s.log.to_stack ++ stack_bound s
  pub network :
      routed to_adapter (answers cs s.log.origin s.log.handle processed)
      ≡ s.log.to_network ++ network_bound s

-- From start_filter on until stop_filter drops the queues.
abbrev pub live : FilterState → Bool
live stopped = false
live starting = false
live running = true
live stopping = true
