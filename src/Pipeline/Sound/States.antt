-- ===== src/Pipeline/Sound/States.antt =====
-- The places of the caller, and which threads have ended there.
use ndisapi.Base.{
  ℕ, ◌≤◌, ◌≡◌, refl, sym, ap, arith, true, List, [], ◌∷◌, Option, none, some, if◌then◌else◌,
}
use mathlib.Core.Path.{subst}
use ndisapi.Pipeline.{Block}
use ndisapi.Pipeline.Stages.{total}
use ndisapi.Pipeline.Threads.{
  FilterState, starting, running, stopping, Stage, reading, processing, mstcp_writing,
  adapter_writing, Pc, top, enter, checking, asleep, woken, done, hold, out, wake, Controller,
  initializing, spawning, signaling, joining, following, upd,
}
use ndisapi.Pipeline.Sound.{
  in_hand, AllFit, Held, waits, is_done, Local, Phase, at_rest, begun, failed, creating, active,
  notifying, joins, reached, Meets, load,
}

pub when_initializing :
    {st : FilterState} {c : Controller} (h : ℕ) → Phase st c → c ≡ initializing h → st ≡ starting
when_initializing h at_rest e = cc
when_initializing h (begun k) e = refl
when_initializing h failed e = cc
when_initializing h (creating k) e = cc
when_initializing h active e = cc
when_initializing h (notifying k) e = cc
when_initializing h (joins k) e = cc

pub when_spawning :
    {st : FilterState} {c : Controller} (h : Option Stage)
    → Phase st c
    → c ≡ spawning h
    → st ≡ running
when_spawning h at_rest e = cc
when_spawning h (begun k) e = cc
when_spawning h failed e = cc
when_spawning h (creating k) e = refl
when_spawning h active e = cc
when_spawning h (notifying k) e = cc
when_spawning h (joins k) e = cc

pub when_signaling :
    {st : FilterState} {c : Controller} (h : Option Stage)
    → Phase st c
    → c ≡ signaling h
    → st ≡ stopping
when_signaling h at_rest e = cc
when_signaling h (begun k) e = cc
when_signaling h failed e = cc
when_signaling h (creating k) e = cc
when_signaling h active e = cc
when_signaling h (notifying k) e = refl
when_signaling h (joins k) e = cc

pub when_joining :
    {st : FilterState} {c : Controller} (h : Option Stage)
    → Phase st c
    → c ≡ joining h
    → st ≡ stopping
when_joining h at_rest e = cc
when_joining h (begun k) e = cc
when_joining h failed e = cc
when_joining h (creating k) e = cc
when_joining h active e = cc
when_joining h (notifying k) e = cc
when_joining h (joins k) e = refl

pub done-of_is_done : (p : Pc) → is_done p ≡ true → p ≡ done
done-of_is_done top e = cc
done-of_is_done enter e = cc
done-of_is_done checking e = cc
done-of_is_done asleep e = cc
done-of_is_done woken e = cc
done-of_is_done done e = refl
done-of_is_done (hold b) e = cc
done-of_is_done (out b) e = cc

pub spawned-threads :
    (pc : Stage → Pc) (i : Stage)
    → ((j : Stage) → Meets (some (reached (some i) j)) (pc j))
    → (j : Stage) → Meets (some (reached (following i) j)) (upd pc i top j)
unfolding Meets
spawned-threads pc reading m reading = refl
spawned-threads pc reading m processing = m processing
spawned-threads pc reading m mstcp_writing = m mstcp_writing
spawned-threads pc reading m adapter_writing = m adapter_writing
spawned-threads pc processing m reading = m reading
spawned-threads pc processing m processing = refl
spawned-threads pc processing m mstcp_writing = m mstcp_writing
spawned-threads pc processing m adapter_writing = m adapter_writing
spawned-threads pc mstcp_writing m reading = m reading
spawned-threads pc mstcp_writing m processing = m processing
spawned-threads pc mstcp_writing m mstcp_writing = refl
spawned-threads pc mstcp_writing m adapter_writing = m adapter_writing
spawned-threads pc adapter_writing m reading = m reading
spawned-threads pc adapter_writing m processing = m processing
spawned-threads pc adapter_writing m mstcp_writing = m mstcp_writing
spawned-threads pc adapter_writing m adapter_writing = refl

pub joined-threads :
    (pc : Stage → Pc) (i : Stage)
    → pc i ≡ done
    → ((j : Stage) → Meets (if reached (some i) j then none else some true) (pc j))
    → (j : Stage) → Meets (if reached (following i) j then none else some true) (pc j)
unfolding Meets
joined-threads pc reading e m reading = ap is_done e
joined-threads pc reading e m processing = tt
joined-threads pc reading e m mstcp_writing = tt
joined-threads pc reading e m adapter_writing = tt
joined-threads pc processing e m reading = m reading
joined-threads pc processing e m processing = ap is_done e
joined-threads pc processing e m mstcp_writing = tt
joined-threads pc processing e m adapter_writing = tt
joined-threads pc mstcp_writing e m reading = m reading
joined-threads pc mstcp_writing e m processing = m processing
joined-threads pc mstcp_writing e m mstcp_writing = ap is_done e
joined-threads pc mstcp_writing e m adapter_writing = tt
joined-threads pc adapter_writing e m reading = m reading
joined-threads pc adapter_writing e m processing = m processing
joined-threads pc adapter_writing e m mstcp_writing = m mstcp_writing
joined-threads pc adapter_writing e m adapter_writing = ap is_done e

pub empty-Local :
    (h : ℕ) (i : Stage) {q : List Block} {p : Pc} → AllFit h i q → is_done p ≡ true → Local h i q p
unfolding Held
empty-Local h i {q} {p} a d =
    subst (Local h i q) (sym (done-of_is_done p d))
      (record { queued = a; held = tt; no_work = λ e. cc })

pub nil-of_load : (q : List Block) (p : Pc) → load q p ≡ 0 → q ≡ []
nil-of_load [] p e = refl
nil-of_load (b ∷ q) p e = absurd (omega arith)

pub part-of_total : (f : Stage → ℕ) (i : Stage) → f i ≤ total f
part-of_total f reading = omega arith
part-of_total f processing = omega arith
part-of_total f mstcp_writing = omega arith
part-of_total f adapter_writing = omega arith

pub reached_self : (i : Stage) → reached (some i) i ≡ true
reached_self reading = refl
reached_self processing = refl
reached_self mstcp_writing = refl
reached_self adapter_writing = refl

pub waits-wake : (p : Pc) → waits (wake p) ≡ true → waits p ≡ true
waits-wake top e = e
waits-wake enter e = e
waits-wake checking e = e
waits-wake asleep e = cc
waits-wake woken e = e
waits-wake done e = e
waits-wake (hold b) e = e
waits-wake (out b) e = e

pub in_hand-done : (p : Pc) → is_done p ≡ true → in_hand p ≡ 0
in_hand-done p d = ap in_hand (done-of_is_done p d)
