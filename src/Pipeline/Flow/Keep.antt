-- ===== src/Pipeline/Flow/Keep.antt =====
-- The order of the packets on their way, step by step.
use ndisapi.Base.{
  ℕ, ◌≡◌, refl, sym, ap, ◌∙◌, inl, inr, Bool, true, false, List, [], ◌∷◌, some, take,
}
use ndisapi.Pipeline.Distribute.{arrived}
use ndisapi.Pipeline.{Packet, Block, Callbacks}
use ndisapi.Pipeline.Threads.{
  stopping, Stage, reading, processing, mstcp_writing, adapter_writing, Pc, top, enter, checking,
  asleep, woken, done, hold, wake, idle, spawning, signaling, joining, following, System, upd,
  set_pc, taken, pushed, filled,
}
use ndisapi.Pipeline.System.{
  Step, pass_top, leave_top, take_first, take_woken, check, leave_first, leave_woken, sleep,
  wake_up, read, read_failed, read_ended, process, send_mstcp, send_adapter, push, start_begin,
  start_done, start_failed, spawn, spawned, stop_begin, notify, notified, join, joined, Reach,
  initial, later,
}
use ndisapi.Pipeline.Sound.{Fits, Sound}
use ndisapi.Pipeline.Sound.Keep.{in_hold, Reach-Sound}
use ndisapi.Pipeline.Sound.Control.{spawned-done}
use ndisapi.Pipeline.Sound.Start.{at_start}
use ndisapi.Pipeline.Sound.States.{when_initializing, done-of_is_done}
use ndisapi.Pipeline.Flow.{of_taken, of_ready, segment, Flow, live}
use ndisapi.Pipeline.Flow.Segments.{
  segment-move, of_taken-wake, of_ready-wake, segment-taken, segment-pushed,
}
use ndisapi.Pipeline.Flow.Written.{processed_block, written_mstcp, written_adapter}
use ndisapi.Pipeline.Flow.Work.{
  steady, read-Flow, ended-Flow, process-Flow, mstcp-Flow, adapter-Flow, fresh-Flow,
}

module _ {S : Type 0} {cs : Callbacks S} {s : System S} where
  -- A step of a thread that neither takes, pushes nor works.
  pace :
      (i : Stage) (p old : Pc)
      → s.pc i ≡ old
      → ((f : Block → List Packet) → of_taken f p ≡ of_taken f old)
      → ((f : Block → List Packet) → of_ready f p ≡ of_ready f old)
      → Flow cs s
      → Flow cs (set_pc s i p)
  pace i p old e t r w =
      steady s.filter_state s.controller s.queue (upd s.pc i p)
        (λ f. segment-move f s i p (t f ∙ sym (ap (of_taken f) e)) (r f ∙ sym (ap (of_ready f) e)))
        w

  takes :
      (i : Stage) (b : Block) (q : List Block) (old : Pc)
      → s.pc i ≡ old
      → s.queue i ≡ b ∷ q
      → ((f : Block → List Packet) → of_taken f old ≡ [])
      → ((f : Block → List Packet) → of_ready f old ≡ [])
      → Flow cs s
      → Flow cs (taken s i b q)
  takes i b q old e k t r w =
      steady s.filter_state s.controller (upd s.queue i q) (upd s.pc i (hold b))
        (λ f. segment-taken f s i b q k (ap (of_taken f) e ∙ t f) (ap (of_ready f) e ∙ r f)) w

nothing_read : {h : ℕ} {b : Block} → Fits h reading b → arrived b ≡ []
unfolding arrived
nothing_read {b} f = ap (λ n. take n b.packets) (f.spent refl)

arrived-filled : (b : Block) (ps : List Packet) (n : ℕ) → arrived (filled b ps n) ≡ take n ps
unfolding arrived
arrived-filled b ps n = refl

Step-Flow :
    {S : Type 0} {cs : Callbacks S} {sp : Bool} {s t : System S}
    → Step cs sp s t
    → Sound s
    → (live s.filter_state ≡ true → Flow cs s)
    → live t.filter_state ≡ true
    → Flow cs t
unfolding segment
Step-Flow (pass_top i e r) g w l = pace i enter top e (λ f. refl) (λ f. refl) (w l)
Step-Flow (leave_top i e r) g w l = pace i done top e (λ f. refl) (λ f. refl) (w l)
Step-Flow (take_first i b q e f r) g w l = takes i b q enter e f (λ f. refl) (λ f. refl) (w l)
Step-Flow (take_woken i b q e f r) g w l = takes i b q woken e f (λ f. refl) (λ f. refl) (w l)
Step-Flow (check i (inl e) f r) g w l = pace i checking enter e (λ f. refl) (λ f. refl) (w l)
Step-Flow (check i (inr e) f r) g w l = pace i checking woken e (λ f. refl) (λ f. refl) (w l)
Step-Flow (leave_first i e f r) g w l = pace i done enter e (λ f. refl) (λ f. refl) (w l)
Step-Flow (leave_woken i e r) g w l = pace i done woken e (λ f. refl) (λ f. refl) (w l)
Step-Flow (sleep i e) g w l = pace i asleep checking e (λ f. refl) (λ f. refl) (w l)
Step-Flow (wake_up i e r) g w l = pace i woken asleep e (λ f. refl) (λ f. refl) (w l)
Step-Flow (read b ps n e f le) g w l =
    read-Flow b (filled b ps n) (take n ps) e (arrived-filled b ps n) (w l)
Step-Flow (read_failed b e r) g w l = w l
Step-Flow (read_ended b e r) g w l = ended-Flow b e (nothing_read (in_hold g reading b e)) (w l)
Step-Flow {cs} {s} (process b b' u e f) g w l =
    process-Flow b b' u e (processed_block cs s.user u b b' (in_hold g processing b e) f) (w l)
Step-Flow (send_mstcp b b' ps e f) g w l =
    let (a, n) = written_mstcp b b' ps (in_hold g mstcp_writing b e) f in
    mstcp-Flow b b' ps e a n (w l)
Step-Flow (send_adapter b b' ps e f) g w l =
    adapter-Flow b b' ps e (written_adapter b b' ps (in_hold g adapter_writing b e) f) (w l)
Step-Flow {s} (push i b e n) g w l =
    steady s.filter_state s.controller (pushed s i b).queue (pushed s i b).pc
      (λ f. segment-pushed f s i b e) (w l)
Step-Flow (start_begin h e f) g w l = cc
Step-Flow {s} (start_done h e) g w l =
    let (q, d) = at_start s h g e in fresh-Flow s h _ (λ i. done-of_is_done (s.pc i) (d i)) q
Step-Flow {s} (start_failed h n e le) g w l =
    let z : false ≡ true = sym (ap live (when_initializing h g.phase e)) ∙ l in cc
Step-Flow {s} (spawn i e) g w l =
    let d = spawned-done s i g e in
    steady s.filter_state (spawning (following i)) s.queue (upd s.pc i top)
      (λ f. segment-move f s i top (sym (ap (of_taken f) d)) (sym (ap (of_ready f) d))) (w l)
Step-Flow {s} (spawned e) g w l = steady s.filter_state idle s.queue s.pc (λ f j. refl) (w l)
Step-Flow {s} (stop_begin e f) g w l =
    steady stopping (signaling (some reading)) s.queue s.pc (λ f j. refl) (w (ap live f))
Step-Flow {s} (notify i e) g w l =
    steady s.filter_state (signaling (following i)) s.queue (upd s.pc i (wake (s.pc i)))
      (λ f.
        segment-move f s i (wake (s.pc i)) (of_taken-wake f (s.pc i)) (of_ready-wake f (s.pc i)))
      (w l)
Step-Flow {s} (notified e) g w l =
    steady s.filter_state (joining (some reading)) s.queue s.pc (λ f j. refl) (w l)
Step-Flow {s} (join i e d) g w l =
    steady s.filter_state (joining (following i)) s.queue s.pc (λ f j. refl) (w l)
Step-Flow {s} (joined e) g w l = cc

-- At any time between start_filter and the end of stop_filter, whatever the order of the steps, the
-- four threads have done what one loop over the packets would do: the packets read are some that
-- have been processed and those that wait, in order; the callbacks are in the state that the
-- processed packets bring them to; and what was handed to SendPacketsToMstcp and then what is in the
-- blocks on the way there is, in order, what the answers to the processed packets send to the stack,
-- and likewise for SendPacketsToAdapter.
pub Reach-Flow :
    {S : Type 0} {cs : Callbacks S} {sp : Bool} {s : System S}
    → Reach cs sp s
    → live s.filter_state ≡ true
    → Flow cs s
Reach-Flow (initial h u) l = cc
Reach-Flow (later r st) l = Step-Flow st (Reach-Sound r) (λ k. Reach-Flow r k) l
