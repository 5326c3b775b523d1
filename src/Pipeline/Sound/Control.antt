-- ===== src/Pipeline/Sound/Control.antt =====
-- How start_filter creates the threads, and how stop_filter notifies and joins them.
use ndisapi.Base.{ℕ, ◌≡◌, refl, sym, ◌∙◌, arith, true, [], none, some}
use mathlib.Core.Path.{subst}
use ndisapi.Pipeline.Stages.{upd-elim, total}
use ndisapi.Pipeline.Threads.{
  FilterState, stopped, Stage, reading, processing, mstcp_writing, adapter_writing, Pc, top, done,
  wake, Controller, idle, spawning, signaling, joining, following, System, upd, set_pc,
}
use ndisapi.Pipeline.Sound.{
  none_left, Held, is_done, Local, Phase, at_rest, creating, active, notifying, joins, ended, Meets,
  Stock, in_hand, load, Sound,
}
use ndisapi.Pipeline.Sound.Moves.{Held-wake, in_hand-wake}
use ndisapi.Pipeline.Sound.States.{
  in_hand-done, when_spawning, when_signaling, when_joining, done-of_is_done, spawned-threads,
  joined-threads, empty-Local, reached_self, waits-wake,
}
use ndisapi.Pipeline.Sound.Start.{read_ended, transported}

module _ {S : Type 0} (s : System S) where
  -- Threads move as their caller does, and none takes or pushes a block.
  settle :
      {st : FilterState} {c c' : Controller} (pc' : Stage → Pc)
      → s.filter_state ≡ st
      → s.controller ≡ c
      → Phase st c'
      → ((i : Stage) → Local s.log.handle i (s.queue i) (pc' i))
      → (((i : Stage) → Meets (ended st c i) (s.pc i))
          → (i : Stage) → Meets (ended st c' i) (pc' i))
      → ((n : ℕ) → Stock st c n → Stock st c' n)
      → ((i : Stage) → in_hand (pc' i) ≡ in_hand (s.pc i))
      → Sound s
      → Sound (record s { controller = c'; pc = pc' })
  settle {c'} pc' e f ph l m k same g = record {
    phase = subst (λ x. Phase x c') (sym e) ph;
    local = l;
    threads =
        subst (λ x. (i : Stage) → Meets (ended x c' i) (pc' i)) (sym e)
          (m (λ i. read_ended s e f i (g.threads i)));
    stock =
        subst (λ x. Stock x c' (total (λ i. load (s.queue i) (pc' i)))) (sym e)
          (k _ (
            transported s e f _ (
              subst (Stock s.filter_state s.controller)
                (omega
                  (arith, same reading, same processing, same mstcp_writing, same adapter_writing))
                g.stock)));
  }

  pub spawned-done : (i : Stage) → Sound s → s.controller ≡ spawning (some i) → s.pc i ≡ done
  unfolding Meets
  spawned-done i g e =
      done-of_is_done (s.pc i)
        (read_ended s (when_spawning (some i) g.phase e) e i (g.threads i) ∙ reached_self i)

  pub spawned-Sound :
      (i : Stage)
      → Sound s
      → s.controller ≡ spawning (some i)
      → Sound (record (set_pc s i top) { controller = spawning (following i) })
  unfolding Held Stock Meets
  spawned-Sound i g e =
      let st = when_spawning (some i) g.phase e in
      let d : is_done (s.pc i) ≡ true = read_ended s st e i (g.threads i) ∙ reached_self i in
      settle (upd s.pc i top) st e (creating (following i))
        (upd-elim (λ j q. Local s.log.handle j (s.queue j) q) i
          (record { queued = (g.local i).queued; held = tt; no_work = λ w. cc }) g.local)
        (λ m. spawned-threads s.pc i m) (λ n k. k)
        (upd-elim (λ j q. in_hand q ≡ in_hand (s.pc j)) i (sym (in_hand-done (s.pc i) d))
          (λ j. refl))
        g

  pub ready-Sound : Sound s → s.controller ≡ spawning none → Sound (record s { controller = idle })
  unfolding Stock Meets
  ready-Sound g e =
      settle s.pc (when_spawning none g.phase e) e active g.local (λ m. m) (λ n k. k) (λ j. refl) g

  pub notified-Sound :
      (i : Stage)
      → Sound s
      → s.controller ≡ signaling (some i)
      → Sound (record (set_pc s i (wake (s.pc i))) { controller = signaling (following i) })
  unfolding Held Stock Meets
  notified-Sound i g e =
      settle (upd s.pc i (wake (s.pc i))) (when_signaling (some i) g.phase e) e
        (notifying (following i))
        (upd-elim (λ j q. Local s.log.handle j (s.queue j) q) i
          (record {
            queued = (g.local i).queued;
            held = Held-wake s.log.handle i (s.pc i) (g.local i).held;
            no_work = λ w. (g.local i).no_work (waits-wake (s.pc i) w);
          })
          g.local)
        (λ m j. tt) (λ n k. k)
        (upd-elim (λ j q. in_hand q ≡ in_hand (s.pc j)) i (in_hand-wake (s.pc i)) (λ j. refl)) g

  pub signaled-Sound :
      Sound s
      → s.controller ≡ signaling none
      → Sound (record s { controller = joining (some reading) })
  unfolding Stock Meets
  signaled-Sound g e =
      settle s.pc (when_signaling none g.phase e) e (joins (some reading)) g.local (λ m j. tt)
        (λ n k. k) (λ j. refl) g

  pub joining-Sound :
      (i : Stage)
      → Sound s
      → s.controller ≡ joining (some i)
      → s.pc i ≡ done
      → Sound (record s { controller = joining (following i) })
  unfolding Stock Meets
  joining-Sound i g e d =
      settle s.pc (when_joining (some i) g.phase e) e (joins (following i)) g.local
        (λ m. joined-threads s.pc i d m) (λ n k. k) (λ j. refl) g

  pub stopped-Sound :
      Sound s
      → s.controller ≡ joining none
      → Sound (record s { filter_state = stopped; controller = idle; queue = λ _. [] })
  unfolding Meets Stock
  stopped-Sound g e =
      let st = when_joining none g.phase e in
      let d : (i : Stage) → is_done (s.pc i) ≡ true = λ i. read_ended s st e i (g.threads i) in
      record {
        phase = at_rest;
        local = λ i. empty-Local s.log.handle i none_left (d i);
        threads = d;
        stock = omega (
          arith,
          in_hand-done (s.pc reading) (d reading),
          in_hand-done (s.pc processing) (d processing),
          in_hand-done (s.pc mstcp_writing) (d mstcp_writing),
          in_hand-done (s.pc adapter_writing) (d adapter_writing),
        );
      }
