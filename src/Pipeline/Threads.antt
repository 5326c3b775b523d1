-- ===== src/Pipeline/Threads.antt =====
-- What the threads of queued_packet_filter share, and where each of them is.
use ndisapi.Base.{ℕ, Bool, true, false, List, [], ◌∷◌, ◌++◌, Option, none, some, if◌then◌else◌}
use ndisapi.Pipeline.{Packet, Block}

pub data FilterState : Type 0 where
  stopped starting running stopping : FilterState

-- A thread, and the queue that it takes from.
pub data Stage : Type 0 where
  reading processing mstcp_writing adapter_writing : Stage

-- Whose queue a thread pushes to.
abbrev pub next_stage : Stage → Stage
next_stage reading = processing
next_stage processing = mstcp_writing
next_stage mstcp_writing = adapter_writing
next_stage adapter_writing = reading

-- Where a thread is: at the test of its loop; about to lock its queue; past the predicate of the
-- wait, which was false; asleep; woken; with a block that it took; with a block that it is to push;
-- not running.
pub data Pc : Type 0 where
  top enter checking asleep woken done : Pc
  hold out : Block → Pc

abbrev pub wake : Pc → Pc
wake asleep = woken
wake p = p

-- Where the caller of start_filter and stop_filter is; the threads that it has still to create, to
-- notify or to join, the first of them given.
pub data Controller : Type 0 where
  idle : Controller
  initializing : ℕ → Controller
  spawning signaling joining : Option Stage → Controller

-- The order in which the code names its threads.
abbrev pub following : Stage → Option Stage
following reading = some processing
following processing = some mstcp_writing
following mstcp_writing = some adapter_writing
following adapter_writing = none

-- What went through since start_filter: the packets that were read, and those handed to
-- SendPacketsToMstcp and SendPacketsToAdapter. The code keeps no such record.
pub record Log (S : Type 0) : Type 0 where
  pub handle : ℕ
  pub origin : S
  pub read : List Packet
  pub to_stack : List Packet
  pub to_network : List Packet

-- `user` is the state that the callbacks keep.
pub record System (S : Type 0) : Type 0 where
  pub filter_state : FilterState
  pub controller : Controller
  pub queue : Stage → List Block
  pub pc : Stage → Pc
  pub user : S
  pub log : Log S

abbrev pub same : Stage → Stage → Bool
same reading reading = true
same processing processing = true
same mstcp_writing mstcp_writing = true
same adapter_writing adapter_writing = true
same i j = false

abbrev pub upd {ℓ} : {A : Type ℓ} → (Stage → A) → Stage → A → Stage → A
upd f i v j = if same i j then v else f j

-- ReadPackets with success: the driver fills buffers and counts them.
abbrev pub filled : Block → List Packet → ℕ → Block
filled b ps n = record b {
  packets = ps;
  read_request = record b.read_request { packets_success = n };
}

module _ {S : Type 0} where
  abbrev pub set_pc : System S → Stage → Pc → System S
  set_pc s i p = record s { pc = upd s.pc i p }

  -- The mutex of the next queue is free, the block goes to its end, and one sleeper is woken.
  abbrev pub pushed : System S → Stage → Block → System S
  pushed s i b = record s {
    queue = upd s.queue (next_stage i) (s.queue (next_stage i) ++ (b ∷ []));
    pc = upd (upd s.pc i top) (next_stage i) (wake (s.pc (next_stage i)));
  }

  abbrev pub taken : System S → Stage → Block → List Block → System S
  taken s i b q = record s { queue = upd s.queue i q; pc = upd s.pc i (hold b) }

  abbrev pub fresh : ℕ → S → Log S
  fresh h u = record { handle = h; origin = u; read = []; to_stack = []; to_network = [] }

  abbrev pub init : ℕ → S → System S
  init h u = record {
    filter_state = stopped;
    controller = idle;
    queue = λ _. [];
    pc = λ _. done;
    user = u;
    log = fresh h u;
  }
