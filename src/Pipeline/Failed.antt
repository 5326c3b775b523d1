-- ===== src/Pipeline/Failed.antt =====
-- start_filter when init_filter fails.
use ndisapi.Base.{◌≡◌, ◌≢◌, inl, inr, refl, sym, ap, ◌∙◌, Bool, true, false, none, some}
use mathlib.Core.Path.{subst}
use ndisapi.Pipeline.{Callbacks}
use ndisapi.Pipeline.Threads.{
  FilterState, stopped, starting, running, Stage, reading, processing, mstcp_writing,
  adapter_writing, Pc, top, enter, checking, asleep, woken, hold, out, Controller, idle,
  initializing, spawning, signaling, joining, System,
}
use ndisapi.Pipeline.System.{
  Step, pass_top, leave_top, take_first, take_woken, check, leave_first, leave_woken, sleep,
  wake_up, read, read_failed, read_ended, process, send_mstcp, send_adapter, push, start_begin,
  start_done, start_failed, spawn, spawned, stop_begin, notify, notified, join, joined, Reach,
}
use ndisapi.Pipeline.Sound.{is_done, ended, Meets, Sound}
use ndisapi.Pipeline.Sound.Keep.{Reach-Sound}

module _ {S : Type 0} {s : System S} (g : Sound s) (f : s.filter_state ≡ starting)
    (c : s.controller ≡ idle) where
  ended_thread : (i : Stage) (p : Pc) → is_done p ≡ false → s.pc i ≢ p
  unfolding Meets
  ended_thread i p n e =
      let m = subst (λ st. Meets (ended st s.controller i) (s.pc i)) f (g.threads i) in
      let z : true ≡ false = sym m ∙ ap is_done e ∙ n in cc

  elsewhere : (k : Controller) → k ≢ idle → s.controller ≢ k
  elsewhere k n e = n (sym e ∙ c)

  not_in : (st : FilterState) → starting ≢ st → s.filter_state ≢ st
  not_in st n e = n (sym f ∙ e)

refuses :
    {S : Type 0} {cs : Callbacks S} {sp : Bool} {s t : System S}
    → Sound s
    → s.filter_state ≡ starting
    → s.controller ≡ idle
    → ¬ Step cs sp s t
refuses g f c (pass_top i e r) = ended_thread g f c i top refl e
refuses g f c (leave_top i e r) = ended_thread g f c i top refl e
refuses g f c (take_first i b q e k r) = ended_thread g f c i enter refl e
refuses g f c (take_woken i b q e k r) = ended_thread g f c i woken refl e
refuses g f c (check i (inl e) k r) = ended_thread g f c i enter refl e
refuses g f c (check i (inr e) k r) = ended_thread g f c i woken refl e
refuses g f c (leave_first i e k r) = ended_thread g f c i enter refl e
refuses g f c (leave_woken i e r) = ended_thread g f c i woken refl e
refuses g f c (sleep i e) = ended_thread g f c i checking refl e
refuses g f c (wake_up i e r) = ended_thread g f c i asleep refl e
refuses g f c (read b ps n e k le) = ended_thread g f c reading (hold b) refl e
refuses g f c (read_failed b e r) = ended_thread g f c reading (hold b) refl e
refuses g f c (read_ended b e r) = ended_thread g f c reading (hold b) refl e
refuses g f c (process b b' u e k) = ended_thread g f c processing (hold b) refl e
refuses g f c (send_mstcp b b' ps e k) = ended_thread g f c mstcp_writing (hold b) refl e
refuses g f c (send_adapter b b' ps e k) = ended_thread g f c adapter_writing (hold b) refl e
refuses g f c (push i b e n) = ended_thread g f c i (out b) refl e
refuses g f c (start_begin h e k) = not_in g f c stopped (λ z. cc) k
refuses g f c (start_done h e) = elsewhere g f c (initializing h) (λ z. cc) e
refuses g f c (start_failed h n e le) = elsewhere g f c (initializing h) (λ z. cc) e
refuses g f c (spawn i e) = elsewhere g f c (spawning (some i)) (λ z. cc) e
refuses g f c (spawned e) = elsewhere g f c (spawning none) (λ z. cc) e
refuses g f c (stop_begin e k) = not_in g f c running (λ z. cc) k
refuses g f c (notify i e) = elsewhere g f c (signaling (some i)) (λ z. cc) e
refuses g f c (notified e) = elsewhere g f c (signaling none) (λ z. cc) e
refuses g f c (join i e d) = elsewhere g f c (joining (some i)) (λ z. cc) e
refuses g f c (joined e) = elsewhere g f c (joining none) (λ z. cc) e

-- After a start_filter whose init_filter failed, that is in every state that can be reached in which
-- the filter is `starting` while its caller is outside, no step is possible: no thread runs, and
-- start_filter and stop_filter find a state in which they do nothing.
pub start_filter-failed :
    {S : Type 0} {cs : Callbacks S} {sp : Bool} (s t : System S)
    → Reach cs sp s
    → s.filter_state ≡ starting
    → s.controller ≡ idle
    → ¬ Step cs sp s t
start_filter-failed s t r f c = refuses (Reach-Sound r) f c
