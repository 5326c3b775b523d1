-- ===== src/Pipeline/Sound/Keep.antt =====
-- Every step of the threads and of their caller, one by one.
use ndisapi.Base.{ℕ, ◌≡◌, ◌≢◌, inl, inr, refl, sym, ap, ◌∙◌, Bool, true, false, List, [], some}
use mathlib.Core.Path.{subst}
use ndisapi.Pipeline.Distribute.{process_block-Distributed}
use ndisapi.Pipeline.{Block, Callbacks, process_block, write_mstcp, write_adapter, Packet}
use ndisapi.Pipeline.Threads.{
  running, Stage, reading, processing, mstcp_writing, adapter_writing, next_stage, Pc, top, enter,
  checking, asleep, woken, done, hold, out, System, Log, set_pc, filled, init,
}
use ndisapi.Pipeline.System.{
  Step, pass_top, leave_top, take_first, take_woken, check, leave_first, leave_woken, sleep,
  wake_up, read, read_failed, read_ended, process, send_mstcp, send_adapter, push, start_begin,
  start_done, start_failed, spawn, spawned, stop_begin, notify, notified, join, joined, Reach,
  initial, later,
}
use ndisapi.Pipeline.Sound.{
  Fits, none_left, Held, waits, is_done, Local, at_rest, ended, Meets, Stock, in_hand, Sound,
}
use ndisapi.Pipeline.Sound.Blocks.{
  filled-Fits, unread-Fits, Fits-Ready, Distributed-Fits, write_mstcp_lem, write_adapter_lem,
  sent_mstcp-Fits, sent_adapter-Fits,
}
use ndisapi.Pipeline.Sound.Moves.{Meets-same, Meets-leave, move-Sound, taken-Sound, pushed-Sound}
use ndisapi.Pipeline.Sound.Control.{
  spawned-Sound, ready-Sound, notified-Sound, signaled-Sound, joining-Sound, stopped-Sound,
}
use ndisapi.Pipeline.Sound.Start.{begun-Sound, started-Sound, unstarted-Sound, stopping-Sound}

module _ {S : Type 0} {s : System S} (g : Sound s) where
  -- A thread goes from one place to another.
  restep :
      (i : Stage) (p old : Pc)
      → s.pc i ≡ old
      → Held s.log.handle i p
      → (waits p ≡ true → s.queue i ≡ [])
      → is_done p ≡ is_done old
      → in_hand p ≡ in_hand old
      → Sound (set_pc s i p)
  restep i p old e h w d c =
      move-Sound i p g (record { queued = (g.local i).queued; held = h; no_work = w })
        (Meets-same (ended s.filter_state s.controller i) (s.pc i) p (d ∙ sym (ap is_done e))
          (g.threads i))
        (c ∙ sym (ap in_hand e))

  leaves :
      (i : Stage) (old : Pc)
      → s.pc i ≡ old
      → s.filter_state ≢ running
      → is_done old ≡ false
      → in_hand old ≡ 0
      → Sound (set_pc s i done)
  unfolding Held
  leaves i old e n d c =
      move-Sound i done g (record { queued = (g.local i).queued; held = tt; no_work = λ w. cc })
        (Meets-leave i (s.pc i) g.phase n (ap is_done e ∙ d) (g.threads i)) (sym (ap in_hand e ∙ c))

  pub in_hold : (i : Stage) (b : Block) → s.pc i ≡ hold b → Fits s.log.handle i b
  unfolding Held
  in_hold i b e = subst (Held s.log.handle i) e (g.local i).held

  -- A thread has done its work on its block.
  worked :
      (i : Stage) (b b' : Block)
      → s.pc i ≡ hold b
      → Fits s.log.handle (next_stage i) b'
      → Sound (set_pc s i (out b'))
  unfolding Held
  worked i b b' e f = restep i (out b') (hold b) e f (λ w. cc) refl refl

relabel :
    {S : Type 0} {s : System S} (l : Log S) (u : S)
    → l.handle ≡ s.log.handle
    → Sound s
    → Sound (record s { log = l; user = u })
relabel {s} l u e g = record {
  phase = g.phase;
  local = λ i. subst (λ h. Local h i (s.queue i) (s.pc i)) (sym e) (g.local i);
  threads = g.threads;
  stock = g.stock;
}

some-inj {ℓ} : {A : Type ℓ} {a b : A} → some a ≡ some b → a ≡ b
some-inj h = cc

-- What the three working threads leave for the next, whatever the equation of the step says.
processed-Fits :
    {S : Type 0} {h : ℕ} (cs : Callbacks S) (u u' : S) (b b' : Block)
    → Fits h processing b
    → process_block cs u b ≡ some (u', b')
    → Fits h mstcp_writing b'
processed-Fits {h} cs u u' b b' f e =
    let (c, r, d) = process_block-Distributed cs u b (Fits-Ready f) in
    subst (Fits h mstcp_writing) (ap (λ p. p.1) (some-inj (sym r ∙ e))) (Distributed-Fits cs u f d)

mstcp-Fits :
    {h : ℕ} (b b' : Block) (ps : List Packet)
    → Fits h mstcp_writing b
    → write_mstcp b ≡ some (ps, b')
    → Fits h adapter_writing b'
mstcp-Fits {h} b b' ps f e =
    let (qs, l) = f.mstcp_load in
    subst (Fits h adapter_writing) (ap (λ p. p.1) (some-inj (sym (write_mstcp_lem b qs l) ∙ e)))
      (sent_mstcp-Fits f)

adapter-Fits :
    {h : ℕ} (b b' : Block) (ps : List Packet)
    → Fits h adapter_writing b
    → write_adapter b ≡ some (ps, b')
    → Fits h reading b'
adapter-Fits {h} b b' ps f e =
    let (qs, l) = f.adapter_load in
    subst (Fits h reading) (ap (λ p. p.1) (some-inj (sym (write_adapter_lem b qs l) ∙ e)))
      (sent_adapter-Fits f)

Step-Sound :
    {S : Type 0} {cs : Callbacks S} {sp : Bool} {s t : System S}
    → Step cs sp s t
    → Sound s
    → Sound t
unfolding Held
Step-Sound (pass_top i e r) g = restep g i enter top e tt (λ w. cc) refl refl
Step-Sound (leave_top i e r) g = leaves g i top e r refl refl
Step-Sound (take_first i b q e f r) g = taken-Sound i b q g f (ap in_hand e) (ap is_done e)
Step-Sound (take_woken i b q e f r) g = taken-Sound i b q g f (ap in_hand e) (ap is_done e)
Step-Sound (check i (inl e) f r) g = restep g i checking enter e tt (λ w. f) refl refl
Step-Sound (check i (inr e) f r) g = restep g i checking woken e tt (λ w. f) refl refl
Step-Sound (leave_first i e f r) g = leaves g i enter e r refl refl
Step-Sound (leave_woken i e r) g = leaves g i woken e r refl refl
Step-Sound (sleep i e) g =
    restep g i asleep checking e tt (λ w. (g.local i).no_work (ap waits e)) refl refl
Step-Sound (wake_up i e r) g = restep g i woken asleep e tt (λ w. cc) refl refl
Step-Sound {s} (read b ps n e f le) g =
    relabel _ s.user refl
      (worked g reading b (filled b ps n) e (filled-Fits ps n (in_hold g reading b e) f le))
Step-Sound (read_failed b e r) g = g
Step-Sound (read_ended b e r) g = worked g reading b b e (unread-Fits (in_hold g reading b e))
Step-Sound {cs} {s} (process b b' u e f) g =
    relabel s.log u refl
      (worked g processing b b' e (processed-Fits cs s.user u b b' (in_hold g processing b e) f))
Step-Sound {s} (send_mstcp b b' ps e f) g =
    relabel _ s.user refl
      (worked g mstcp_writing b b' e (mstcp-Fits b b' ps (in_hold g mstcp_writing b e) f))
Step-Sound {s} (send_adapter b b' ps e f) g =
    relabel _ s.user refl
      (worked g adapter_writing b b' e (adapter-Fits b b' ps (in_hold g adapter_writing b e) f))
Step-Sound (push i b e n) g = pushed-Sound i b g e n
Step-Sound {s} (start_begin h e f) g = begun-Sound s h g e f
Step-Sound {s} (start_done h e) g = started-Sound s h g e
Step-Sound {s} (start_failed h n e le) g = unstarted-Sound s h n le g e
Step-Sound {s} (spawn i e) g = spawned-Sound s i g e
Step-Sound {s} (spawned e) g = ready-Sound s g e
Step-Sound {s} (stop_begin e f) g = stopping-Sound s g e f
Step-Sound {s} (notify i e) g = notified-Sound s i g e
Step-Sound {s} (notified e) g = signaled-Sound s g e
Step-Sound {s} (join i e d) g = joining-Sound s i g e d
Step-Sound {s} (joined e) g = stopped-Sound s g e

init-Sound : {S : Type 0} (h : ℕ) (u : S) → Sound (init h u)
unfolding Held Meets Stock
init-Sound h u = record {
  phase = at_rest;
  local = λ i. record { queued = none_left; held = tt; no_work = λ w. cc };
  threads = λ i. refl;
  stock = refl;
}

-- Whatever the order of the steps of the threads and their caller, and with wake-ups that nobody
-- asked for or without them: the filter is in a state that fits the place of its caller; a block in
-- a queue or in hand is as the thread that it goes to relies on (its requests name packets of the
-- block only, and are empty where that thread fills them or where they have been sent); a thread
-- past the predicate of its wait has an empty queue; and there are ten blocks in queues and hands
-- while the filter runs or stops, and none while it is stopped.
pub Reach-Sound :
    {S : Type 0} {cs : Callbacks S} {sp : Bool} {s : System S} → Reach cs sp s → Sound s
Reach-Sound (initial h u) = init-Sound h u
Reach-Sound (later r st) = Step-Sound st (Reach-Sound r)
