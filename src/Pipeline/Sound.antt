-- ===== src/Pipeline/Sound.antt =====
-- What holds of the threads of queued_packet_filter between two steps: what a block looks like at
-- its place, how many there are, and who runs in which state of the filter.
pub mod Blocks
pub mod Moves
pub mod States
pub mod Start
pub mod Control
pub mod Keep
use ndisapi.Base.{
  ℕ, ◌+◌, ◌^◌, ◌≤◌, ◌<◌, ◌≡◌, refl, sym, ap, ◌∙◌, arith, Bool, true, false, if◌then◌else◌, List, [],
  ◌∷◌, ◌++◌, Option, none, some, length,
}
use ndisapi.Pipeline.Distribute.{Ready}
use ndisapi.Pipeline.Stages.{total}
use ndisapi.Pipeline.{Packet, Block, loaded, maximum_block_num}
use ndisapi.Pipeline.Threads.{
  FilterState, stopped, starting, running, stopping, Stage, reading, processing, mstcp_writing,
  adapter_writing, next_stage, Pc, top, enter, checking, asleep, woken, done, hold, out, Controller,
  idle, initializing, spawning, signaling, joining, System, Log,
}

-- Which request of a block can name packets, at which place.
abbrev pub carries_adapter : Stage → Bool
carries_adapter reading = false
carries_adapter processing = false
carries_adapter mstcp_writing = true
carries_adapter adapter_writing = true

abbrev pub carries_mstcp : Stage → Bool
carries_mstcp reading = false
carries_mstcp processing = false
carries_mstcp mstcp_writing = true
carries_mstcp adapter_writing = false

-- Whether a block has packets that nobody has looked at yet.
abbrev pub has_packets : Stage → Bool
has_packets reading = false
has_packets processing = true
has_packets mstcp_writing = false
has_packets adapter_writing = false

-- A block that is to be taken by the thread of a stage.
pub record Fits (h : ℕ) (i : Stage) (b : Block) : Type 0 where
  pub handle : b.read_request.adapter_handle ≡ h
  pub adapter_size : length b.write_adapter_request.buffers ≡ length b.packets
  pub mstcp_size : length b.write_mstcp_request.buffers ≡ length b.packets
  pub small : length b.packets < 2 ^ 32
  pub success : b.read_request.packets_success ≤ length b.packets
  pub spent : has_packets i ≡ false → b.read_request.packets_success ≡ 0
  pub adapter_load : (ps : List Packet) × (loaded b.packets b.write_adapter_request ≡ some ps)
  pub mstcp_load : (ps : List Packet) × (loaded b.packets b.write_mstcp_request ≡ some ps)
  pub adapter_empty : carries_adapter i ≡ false → b.write_adapter_request.packets_number ≡ 0
  pub mstcp_empty : carries_mstcp i ≡ false → b.write_mstcp_request.packets_number ≡ 0

pub data AllFit (h : ℕ) (i : Stage) : List Block → Type 0 where
  none_left : AllFit h i []
  more : {b : Block} {bs : List Block} → Fits h i b → AllFit h i bs → AllFit h i (b ∷ bs)

-- The block that a thread has in hand.
pub Held : ℕ → Stage → Pc → Type 0
Held h i (hold b) = Fits h i b
Held h i (out b) = Fits h (next_stage i) b
Held h i p = Unit

-- Past the predicate of the wait.
abbrev pub waits : Pc → Bool
waits checking = true
waits asleep = true
waits p = false

abbrev pub is_done : Pc → Bool
is_done done = true
is_done p = false

pub record Local (h : ℕ) (i : Stage) (q : List Block) (p : Pc) : Type 0 where
  pub queued : AllFit h i q
  pub held : Held h i p
  pub no_work : waits p ≡ true → q ≡ []

-- The states of the filter in which its caller can be at a place.
pub data Phase : FilterState → Controller → Type 0 where
  at_rest : Phase stopped idle
  begun : (h : ℕ) → Phase starting (initializing h)
  failed : Phase starting idle
  creating : (k : Option Stage) → Phase running (spawning k)
  active : Phase running idle
  notifying : (k : Option Stage) → Phase stopping (signaling k)
  joins : (k : Option Stage) → Phase stopping (joining k)

-- Stages from `k` on.
abbrev pub reached : Option Stage → Stage → Bool
reached none i = false
reached (some reading) i = true
reached (some processing) reading = false
reached (some processing) i = true
reached (some mstcp_writing) reading = false
reached (some mstcp_writing) processing = false
reached (some mstcp_writing) i = true
reached (some adapter_writing) adapter_writing = true
reached (some adapter_writing) i = false

-- Whether a thread has ended, where that is determined.
abbrev pub ended : FilterState → Controller → Stage → Option Bool
ended stopped c i = some true
ended starting c i = some true
ended running (spawning k) i = some (reached k i)
ended running c i = some false
ended stopping (joining k) i = if reached k i then none else some true
ended stopping c i = none

unfoldable pub Meets : Option Bool → Pc → Type 0
Meets none p = Unit
Meets (some b) p = is_done p ≡ b

-- How many blocks there are.
unfoldable pub Stock : FilterState → Controller → ℕ → Type 0
Stock stopped c n = n ≡ 0
Stock starting idle n = n ≤ maximum_block_num
Stock starting c n = n ≡ 0
Stock running c n = n ≡ maximum_block_num
Stock stopping c n = n ≡ maximum_block_num

abbrev pub in_hand : Pc → ℕ
in_hand (hold b) = 1
in_hand (out b) = 1
in_hand p = 0

abbrev pub load : List Block → Pc → ℕ
load q p = length q + in_hand p

pub record Sound {S : Type 0} (s : System S) : Type 0 where
  pub phase : Phase s.filter_state s.controller
  pub local : (i : Stage) → Local s.log.handle i (s.queue i) (s.pc i)
  pub threads : (i : Stage) → Meets (ended s.filter_state s.controller i) (s.pc i)
  pub stock : Stock s.filter_state s.controller (total (λ i. load (s.queue i) (s.pc i)))
