-- ===== src/Pipeline/Sound/Moves.antt =====
-- The ways in which a step changes the threads and their queues, and what each needs.
use ndisapi.Base.{
  ℕ, ◌≡◌, ◌≢◌, refl, sym, ap, ◌∙◌, arith, Bool, true, false, List, [], ◌∷◌, ◌++◌, Option, none,
  some, length, length-append, if◌then◌else◌,
}
use mathlib.Core.Path.{subst}
use ndisapi.Pipeline.{Block}
use ndisapi.Pipeline.Stages.{upd-elim, upd-elim_pair, upd-next, total-upd, total-upd_one}
use ndisapi.Pipeline.Threads.{
  FilterState, running, Stage, next_stage, Pc, top, enter, checking, asleep, woken, done, hold, out,
  wake, Controller, System, upd, set_pc, pushed, taken,
}
use ndisapi.Pipeline.Sound.{
  Fits, AllFit, more, Held, waits, is_done, Local, Phase, at_rest, begun, failed, creating, active,
  notifying, joins, ended, reached, Meets, Stock, in_hand, load, Sound,
}
use ndisapi.Pipeline.Sound.Blocks.{AllFit-push}

pub Meets-same : (m : Option Bool) (p q : Pc) → is_done q ≡ is_done p → Meets m p → Meets m q
unfolding Meets
Meets-same none p q e h = tt
Meets-same (some b) p q e h = e ∙ h

-- A thread leaves only where the filter does not run.
pub Meets-leave :
    {st : FilterState} {c : Controller} (i : Stage) (p : Pc)
    → Phase st c
    → st ≢ running
    → is_done p ≡ false
    → Meets (ended st c i) p
    → Meets (ended st c i) done
unfolding Meets
Meets-leave i p at_rest n e m = refl
Meets-leave i p (begun h) n e m = refl
Meets-leave i p failed n e m = refl
Meets-leave i p (creating k) n e m = absurd (n refl)
Meets-leave i p active n e m = absurd (n refl)
Meets-leave i p (notifying k) n e m = tt
Meets-leave i p (joins k) n e m = go (reached k i)
  where
    go : (b : Bool) → Meets (if b then none else some true) done
    go true = tt
    go false = refl

pub Held-wake : (h : ℕ) (i : Stage) (p : Pc) → Held h i p → Held h i (wake p)
unfolding Held
Held-wake h i top d = d
Held-wake h i enter d = d
Held-wake h i checking d = d
Held-wake h i asleep d = tt
Held-wake h i woken d = d
Held-wake h i done d = d
Held-wake h i (hold b) d = d
Held-wake h i (out b) d = d

is_done-wake : (p : Pc) → is_done (wake p) ≡ is_done p
is_done-wake top = refl
is_done-wake enter = refl
is_done-wake checking = refl
is_done-wake asleep = refl
is_done-wake woken = refl
is_done-wake done = refl
is_done-wake (hold b) = refl
is_done-wake (out b) = refl

pub in_hand-wake : (p : Pc) → in_hand (wake p) ≡ in_hand p
in_hand-wake top = refl
in_hand-wake enter = refl
in_hand-wake checking = refl
in_hand-wake asleep = refl
in_hand-wake woken = refl
in_hand-wake done = refl
in_hand-wake (hold b) = refl
in_hand-wake (out b) = refl

waits-wake : (p : Pc) → p ≢ checking → waits (wake p) ≢ true
waits-wake top n e = cc
waits-wake enter n e = cc
waits-wake checking n e = n refl
waits-wake asleep n e = cc
waits-wake woken n e = cc
waits-wake done n e = cc
waits-wake (hold b) n e = cc
waits-wake (out b) n e = cc

module _ {S : Type 0} {s : System S} where
  -- One thread moves and keeps what it holds.
  pub move-Sound :
      (i : Stage) (p : Pc)
      → Sound s
      → Local s.log.handle i (s.queue i) p
      → Meets (ended s.filter_state s.controller i) p
      → in_hand p ≡ in_hand (s.pc i)
      → Sound (set_pc s i p)
  move-Sound i p g l m e = record {
    phase = g.phase;
    local = upd-elim (λ j q. Local s.log.handle j (s.queue j) q) i l g.local;
    threads = upd-elim (λ j q. Meets (ended s.filter_state s.controller j) q) i m g.threads;
    stock =
        subst (Stock s.filter_state s.controller)
          (omega (arith, total-upd_one (λ _. load) s.queue s.pc p i)) g.stock;
  }

  -- A thread takes the first block of its queue.
  pub taken-Sound :
      (i : Stage) (b : Block) (q : List Block)
      → Sound s
      → s.queue i ≡ b ∷ q
      → in_hand (s.pc i) ≡ 0
      → is_done (s.pc i) ≡ false
      → Sound (taken s i b q)
  unfolding Held
  taken-Sound i b q g e z nd = record {
    phase = g.phase;
    local =
        upd-elim_pair (Local s.log.handle) i
          (first (subst (AllFit s.log.handle i) e (g.local i).queued)) g.local;
    threads =
        upd-elim (λ j p. Meets (ended s.filter_state s.controller j) p) i
          (Meets-same (ended s.filter_state s.controller i) (s.pc i) (hold b) (sym nd)
            (g.threads i))
          g.threads;
    stock =
        subst (Stock s.filter_state s.controller)
          (omega (arith, total-upd (λ _. load) s.queue s.pc q (hold b) i, ap length e)) g.stock;
  }
    where
      first : AllFit s.log.handle i (b ∷ q) → Local s.log.handle i q (hold b)
      first (more f a) = record { queued = a; held = f; no_work = λ h. cc }

  -- A thread pushes its block and wakes the next.
  pub pushed-Sound :
      (i : Stage) (b : Block)
      → Sound s
      → s.pc i ≡ out b
      → s.pc (next_stage i) ≢ checking
      → Sound (pushed s i b)
  unfolding Held
  pushed-Sound i b g e n =
      let fits : Fits s.log.handle (next_stage i) b =
        subst (Held s.log.handle i) e (g.local i).held in
      let p : Pc = s.pc (next_stage i) in
      record {
        phase = g.phase;
        local =
            upd-elim_pair (Local s.log.handle) (next_stage i)
              (record {
                queued = AllFit-push (g.local (next_stage i)).queued fits;
                held = Held-wake s.log.handle (next_stage i) p (g.local (next_stage i)).held;
                no_work = λ w. absurd (waits-wake p n w);
              })
              (upd-elim (λ j q. Local s.log.handle j (s.queue j) q) i
                (record { queued = (g.local i).queued; held = tt; no_work = λ h. cc }) g.local);
        threads =
            upd-elim (λ j q. Meets (ended s.filter_state s.controller j) q) (next_stage i)
              (Meets-same (ended s.filter_state s.controller (next_stage i)) p (wake p)
                (is_done-wake p) (g.threads (next_stage i)))
              (upd-elim (λ j q. Meets (ended s.filter_state s.controller j) q) i
                (Meets-same (ended s.filter_state s.controller i) (s.pc i) top (sym (ap is_done e))
                  (g.threads i))
                g.threads);
        stock =
            subst (Stock s.filter_state s.controller)
              (omega (
                arith,
                total-upd (λ _. load) s.queue (upd s.pc i top) (s.queue (next_stage i) ++ (b ∷ []))
                    (wake p) (next_stage i),
                total-upd_one (λ _. load) s.queue s.pc top i,
                ap in_hand e,
                ap in_hand (upd-next s.pc i top),
                in_hand-wake p,
                length-append (s.queue (next_stage i)) (b ∷ []),
              ))
              g.stock;
      }
