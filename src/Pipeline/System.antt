-- ===== src/Pipeline/System.antt =====
-- The four threads of queued_packet_filter, and the thread that calls start_filter and stop_filter,
-- interleaved in any order. A step holds a mutex from end to end, but for the wait on a condition
-- variable: between the test of its predicate and its sleep (`checking`) a thread keeps the mutex
-- of its queue, and a store to filter_state_, which needs no mutex, can come first.
use ndisapi.Base.{
  ℕ, ◌≤◌, ◌≡◌, ◌≢◌, ◌⊎◌, Bool, true, List, [], ◌∷◌, ◌++◌, none, some, length, take, replicate,
}
use ndisapi.Pipeline.{
  Packet, Block, Callbacks, make_block, maximum_packet_block, maximum_block_num, process_block,
  write_mstcp, write_adapter,
}
use ndisapi.Pipeline.Threads.{
  stopped, starting, running, stopping, Stage, reading, processing, mstcp_writing, adapter_writing,
  next_stage, top, enter, checking, asleep, woken, done, hold, out, wake, idle, initializing,
  spawning, signaling, joining, following, System, upd, filled, set_pc, pushed, taken, fresh, init,
}

module _ {S : Type 0} where
  pub data Step (cs : Callbacks S) (spurious : Bool) (s : System S) : System S → Type 0 where
    -- a thread, at its queue
    pass_top :
        (i : Stage)
        → s.pc i ≡ top
        → s.filter_state ≡ running
        → Step cs spurious s (set_pc s i enter)
    leave_top :
        (i : Stage) → s.pc i ≡ top → s.filter_state ≢ running → Step cs spurious s (set_pc s i done)
    -- the reading thread takes from a queue that is not empty before it looks at the state
    take_first :
        (i : Stage) (b : Block) (q : List Block)
        → s.pc i ≡ enter
        → s.queue i ≡ b ∷ q
        → (s.filter_state ≡ running) ⊎ (i ≡ reading)
        → Step cs spurious s (taken s i b q)
    take_woken :
        (i : Stage) (b : Block) (q : List Block)
        → s.pc i ≡ woken
        → s.queue i ≡ b ∷ q
        → s.filter_state ≡ running
        → Step cs spurious s (taken s i b q)
    check :
        (i : Stage)
        → (s.pc i ≡ enter) ⊎ (s.pc i ≡ woken)
        → s.queue i ≡ []
        → s.filter_state ≡ running
        → Step cs spurious s (set_pc s i checking)
    leave_first :
        (i : Stage)
        → s.pc i ≡ enter
        → (s.queue i ≡ []) ⊎ (i ≢ reading)
        → s.filter_state ≢ running
        → Step cs spurious s (set_pc s i done)
    leave_woken :
        (i : Stage)
        → s.pc i ≡ woken
        → s.filter_state ≢ running
        → Step cs spurious s (set_pc s i done)
    sleep : (i : Stage) → s.pc i ≡ checking → Step cs spurious s (set_pc s i asleep)
    wake_up :
        (i : Stage) → s.pc i ≡ asleep → spurious ≡ true → Step cs spurious s (set_pc s i woken)
    -- a thread, with its block
    read :
        (b : Block) (ps : List Packet) (n : ℕ)
        → s.pc reading ≡ hold b
        → length ps ≡ length b.packets
        → n ≤ length b.packets
        → Step cs spurious s (record (set_pc s reading (out (filled b ps n))) {
          log = record s.log { read = s.log.read ++ take n ps };
        })
    read_failed :
        (b : Block) → s.pc reading ≡ hold b → s.filter_state ≡ running → Step cs spurious s s
    read_ended :
        (b : Block)
        → s.pc reading ≡ hold b
        → s.filter_state ≢ running
        → Step cs spurious s (set_pc s reading (out b))
    process :
        (b b' : Block) (u : S)
        → s.pc processing ≡ hold b
        → process_block cs s.user b ≡ some (u, b')
        → Step cs spurious s (record (set_pc s processing (out b')) { user = u })
    send_mstcp :
        (b b' : Block) (ps : List Packet)
        → s.pc mstcp_writing ≡ hold b
        → write_mstcp b ≡ some (ps, b')
        → Step cs spurious s (record (set_pc s mstcp_writing (out b')) {
          log = record s.log { to_stack = s.log.to_stack ++ ps };
        })
    send_adapter :
        (b b' : Block) (ps : List Packet)
        → s.pc adapter_writing ≡ hold b
        → write_adapter b ≡ some (ps, b')
        → Step cs spurious s (record (set_pc s adapter_writing (out b')) {
          log = record s.log { to_network = s.log.to_network ++ ps };
        })
    push :
        (i : Stage) (b : Block)
        → s.pc i ≡ out b
        → s.pc (next_stage i) ≢ checking
        → Step cs spurious s (pushed s i b)
    -- start_filter
    start_begin :
        (h : ℕ)
        → s.controller ≡ idle
        → s.filter_state ≡ stopped
        → Step cs spurious s (record s { filter_state = starting; controller = initializing h })
    start_done :
        (h : ℕ)
        → s.controller ≡ initializing h
        → Step cs spurious s (record s {
          filter_state = running;
          controller = spawning (some reading);
          queue =
              upd s.queue reading (
                s.queue reading ++ replicate maximum_block_num (make_block maximum_packet_block h));
          log = fresh h s.user;
        })
    -- init_filter fails: in bad_alloc, with the blocks that it has made, or in set_packet_event
    start_failed :
        (h n : ℕ)
        → s.controller ≡ initializing h
        → n ≤ maximum_block_num
        → Step cs spurious s (record s {
          controller = idle;
          log = fresh h s.user;
          queue =
              upd s.queue reading
                (s.queue reading ++ replicate n (make_block maximum_packet_block h));
        })
    spawn :
        (i : Stage)
        → s.controller ≡ spawning (some i)
        → Step cs spurious s (record (set_pc s i top) { controller = spawning (following i) })
    spawned : s.controller ≡ spawning none → Step cs spurious s (record s { controller = idle })
    -- stop_filter
    stop_begin :
        s.controller ≡ idle
        → s.filter_state ≡ running
        → Step cs spurious s
            (record s { filter_state = stopping; controller = signaling (some reading) })
    notify :
        (i : Stage)
        → s.controller ≡ signaling (some i)
        → Step cs spurious s
            (record (set_pc s i (wake (s.pc i))) { controller = signaling (following i) })
    notified :
        s.controller ≡ signaling none
        → Step cs spurious s (record s { controller = joining (some reading) })
    join :
        (i : Stage)
        → s.controller ≡ joining (some i)
        → s.pc i ≡ done
        → Step cs spurious s (record s { controller = joining (following i) })
    joined :
        s.controller ≡ joining none
        → Step cs spurious s
            (record s { filter_state = stopped; controller = idle; queue = λ _. [] })

  pub data Reach (cs : Callbacks S) (spurious : Bool) : System S → Type 0 where
    initial : (h : ℕ) (u : S) → Reach cs spurious (init h u)
    later : {s t : System S} → Reach cs spurious s → Step cs spurious s t → Reach cs spurious t

  -- Steps one after the other.
  pub data Run (cs : Callbacks S) (spurious : Bool) (s : System S) : System S → Type 0 where
    stay : Run cs spurious s s
    step : {t u : System S} → Run cs spurious s t → Step cs spurious t u → Run cs spurious s u
