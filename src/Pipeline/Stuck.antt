-- ===== src/Pipeline/Stuck.antt =====
-- stop_filter while a writing thread is between the test of its predicate and its sleep.
use ndisapi.Base.{arith, ◌≡◌, ◌≢◌, refl, sym, ap, ◌∙◌, inl, inr, true, false, none, some}
use mathlib.Core.Path.{subst}
use ndisapi.Pipeline.{Block, Callbacks}
use ndisapi.Pipeline.Threads.{
  running, stopping, Stage, reading, processing, mstcp_writing, adapter_writing, Pc, top, enter,
  checking, asleep, woken, done, hold, out, Controller, idle, initializing, spawning, signaling,
  joining, following, System, set_pc, pushed,
}
use ndisapi.Pipeline.System.{
  Run, stay, step, Step, pass_top, leave_top, take_first, take_woken, check, leave_first,
  leave_woken, sleep, wake_up, read, read_failed, read_ended, process, send_mstcp, send_adapter,
  push, start_begin, start_done, start_failed, spawn, spawned, stop_begin, notify, notified, join,
  joined,
}
use ndisapi.Pipeline.Stages.{upd-elim}
use ndisapi.Pipeline.Sound.{reached, in_hand}
use ndisapi.Pipeline.Sound.Moves.{in_hand-wake}

-- The thread that writes to the stack sleeps, and the one that would wake it has no block.
unfoldable pub Calm : Stage → Pc → Type 0
Calm reading p = Unit
Calm processing p = in_hand p ≡ 0
Calm mstcp_writing p = p ≡ asleep
Calm adapter_writing p = Unit

-- stop_filter is past its notifications, and at most at the join of that thread.
pub record Stuck {S : Type 0} (s : System S) : Type 0 where
  pub stage : Stage
  pub calls : s.controller ≡ joining (some stage)
  pub ahead : reached (some stage) mstcp_writing ≡ true
  pub ends : s.filter_state ≡ stopping
  pub calm : (i : Stage) → Calm i (s.pc i)

Calm-pace : (i : Stage) (old p : Pc) → Calm i old → old ≢ asleep → in_hand p ≡ 0 → Calm i p
unfolding Calm
Calm-pace reading old p c n z = tt
Calm-pace processing old p c n z = z
Calm-pace mstcp_writing old p c n z = absurd (n c)
Calm-pace adapter_writing old p c n z = tt

module _ {S : Type 0} {s : System S} (k : Stuck s) where
  at_pc : (i : Stage) (old : Pc) → s.pc i ≡ old → Calm i old
  at_pc i old e = subst (Calm i) e (k.calm i)

  paced :
      (i : Stage) (old p : Pc) → s.pc i ≡ old → old ≢ asleep → in_hand p ≡ 0 → Stuck (set_pc s i p)
  paced i old p e n z = record {
    stage = k.stage;
    calls = k.calls;
    ahead = k.ahead;
    ends = k.ends;
    calm = upd-elim Calm i (Calm-pace i old p (at_pc i old e) n z) k.calm;
  }

  not_running : s.filter_state ≢ running
  not_running r = let e : stopping ≡ running = sym k.ends ∙ r in cc

  pushes : (i : Stage) (b : Block) → s.pc i ≡ out b → Stuck (pushed s i b)
  unfolding Calm
  pushes reading b e = record {
    stage = k.stage;
    calls = k.calls;
    ahead = k.ahead;
    ends = k.ends;
    calm =
        upd-elim Calm processing (in_hand-wake (s.pc processing) ∙ k.calm processing)
          (upd-elim Calm reading tt k.calm);
  }
  pushes processing b e = let z = at_pc processing (out b) e in absurd (omega arith)
  pushes mstcp_writing b e = let z = at_pc mstcp_writing (out b) e in cc
  pushes adapter_writing b e = record {
    stage = k.stage;
    calls = k.calls;
    ahead = k.ahead;
    ends = k.ends;
    calm = upd-elim Calm reading tt (upd-elim Calm adapter_writing tt k.calm);
  }

  joins :
      (i : Stage)
      → s.controller ≡ joining (some i)
      → s.pc i ≡ done
      → Stuck (record s { controller = joining (following i) })
  unfolding Calm
  joins reading e d = record {
    stage = processing;
    calls = refl;
    ahead = refl;
    ends = k.ends;
    calm = k.calm;
  }
  joins processing e d = record {
    stage = mstcp_writing;
    calls = refl;
    ahead = refl;
    ends = k.ends;
    calm = k.calm;
  }
  joins mstcp_writing e d = let z = at_pc mstcp_writing done d in cc
  joins adapter_writing e d =
      let z : joining (some k.stage) ≡ joining (some adapter_writing) = sym k.calls ∙ e in
      let w : k.stage ≡ adapter_writing = cc in
      let x : false ≡ true = ap (λ i. reached (some i) mstcp_writing) (sym w) ∙ k.ahead in cc

  other : (c : Controller) → ((i : Stage) → joining (some i) ≢ c) → s.controller ≢ c
  other c n e = n k.stage (sym k.calls ∙ e)

Step-Stuck :
    {S : Type 0} {cs : Callbacks S} {s t : System S} → Step cs false s t → Stuck s → Stuck t
unfolding Calm
Step-Stuck (pass_top i e r) k = absurd (not_running k r)
Step-Stuck (leave_top i e r) k = paced k i top done e (λ q. cc) refl
Step-Stuck (take_first i b q e f (inl r)) k = absurd (not_running k r)
Step-Stuck {s} (take_first i b q e f (inr r)) k = record {
  stage = k.stage;
  calls = k.calls;
  ahead = k.ahead;
  ends = k.ends;
  calm = upd-elim Calm i (subst (λ j. Calm j (hold b)) (sym r) tt) k.calm;
}
Step-Stuck (take_woken i b q e f r) k = absurd (not_running k r)
Step-Stuck (check i e f r) k = absurd (not_running k r)
Step-Stuck (leave_first i e f r) k = paced k i enter done e (λ q. cc) refl
Step-Stuck (leave_woken i e r) k = paced k i woken done e (λ q. cc) refl
Step-Stuck (sleep i e) k = paced k i checking asleep e (λ q. cc) refl
Step-Stuck (wake_up i e r) k = cc
Step-Stuck (read b ps n e f le) k = record {
  stage = k.stage;
  calls = k.calls;
  ahead = k.ahead;
  ends = k.ends;
  calm = upd-elim Calm reading tt k.calm;
}
Step-Stuck (read_failed b e r) k = k
Step-Stuck (read_ended b e r) k = record {
  stage = k.stage;
  calls = k.calls;
  ahead = k.ahead;
  ends = k.ends;
  calm = upd-elim Calm reading tt k.calm;
}
Step-Stuck (process b b' u e f) k = let z = at_pc k processing (hold b) e in absurd (omega arith)
Step-Stuck (send_mstcp b b' ps e f) k = let z = at_pc k mstcp_writing (hold b) e in cc
Step-Stuck (send_adapter b b' ps e f) k = record {
  stage = k.stage;
  calls = k.calls;
  ahead = k.ahead;
  ends = k.ends;
  calm = upd-elim Calm adapter_writing tt k.calm;
}
Step-Stuck (push i b e n) k = pushes k i b e
Step-Stuck (start_begin h e f) k = absurd (other k idle (λ i q. cc) e)
Step-Stuck (start_done h e) k = absurd (other k (initializing h) (λ i q. cc) e)
Step-Stuck (start_failed h n e le) k = absurd (other k (initializing h) (λ i q. cc) e)
Step-Stuck (spawn i e) k = absurd (other k (spawning (some i)) (λ j q. cc) e)
Step-Stuck (spawned e) k = absurd (other k (spawning none) (λ j q. cc) e)
Step-Stuck (stop_begin e f) k = absurd (other k idle (λ i q. cc) e)
Step-Stuck (notify i e) k = absurd (other k (signaling (some i)) (λ j q. cc) e)
Step-Stuck (notified e) k = absurd (other k (signaling none) (λ j q. cc) e)
Step-Stuck (join i e d) k = joins k i e d
Step-Stuck (joined e) k = absurd (other k (joining none) (λ j q. cc) e)

Run-Stuck : {S : Type 0} {cs : Callbacks S} {s t : System S} → Stuck s → Run cs false s t → Stuck t
Run-Stuck k stay = k
Run-Stuck k (step r st) = Step-Stuck st (Run-Stuck k r)

-- Once stop_filter has sent its notifications while the thread that writes to the stack sleeps and
-- the processing thread has no block in hand, no run of the program, without wake-ups that nobody
-- asked for, ends the sleep or lets the filter stop: stop_filter does not return.
pub stop_filter-Stuck :
    {S : Type 0} {cs : Callbacks S} (s t : System S)
    → Stuck s
    → Run cs false s t
    → (t.pc mstcp_writing ≡ asleep) × (t.filter_state ≡ stopping) × (t.controller ≢ idle)
unfolding Calm
stop_filter-Stuck s t k r =
    let z = Run-Stuck k r in (z.calm mstcp_writing, z.ends, other z idle (λ i q. cc))
