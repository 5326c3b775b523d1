-- ===== src/Pipeline/Progress.antt =====
-- What the threads of queued_packet_filter can do while nothing is read: a measure of the work that
-- is left, and a step that lowers it.
use ndisapi.Base.{
  ℕ, ◌+◌, ◌-◌, ◌*◌, ◌≤◌, ◌≡◌, ◌≢◌, ◌⊎◌, inl, inr, refl, sym, ap, ◌∙◌, arith, true, false, List, [],
  ◌∷◌, ◌++◌, length, length-append,
}
use mathlib.Core.Path.{subst}
use ndisapi.Pipeline.{Block, Callbacks}
use ndisapi.Pipeline.Distribute.{process_block-Distributed}
use ndisapi.Pipeline.Threads.{
  running, Stage, reading, processing, mstcp_writing, adapter_writing, next_stage, Pc, top, enter,
  checking, asleep, woken, done, hold, out, wake, idle, System, upd, set_pc, taken, pushed,
}
use ndisapi.Pipeline.System.{
  Step, pass_top, take_first, take_woken, check, sleep, process, send_mstcp, send_adapter, push,
}
use ndisapi.Pipeline.Stages.{upd-next, total, total-upd, total-upd_one}
use ndisapi.Pipeline.Sound.{is_done, ended, Meets, Sound}
use ndisapi.Pipeline.Sound.Blocks.{
  Fits-Ready, sent_mstcp, sent_adapter, write_mstcp_lem, write_adapter_lem,
}
use ndisapi.Pipeline.Sound.Keep.{in_hold}

-- How far a block in the queue of a stage has still to go.
abbrev queue_weight : Stage → ℕ
queue_weight reading = 8
queue_weight processing = 80
queue_weight mstcp_writing = 56
queue_weight adapter_writing = 32

abbrev out_weight : Stage → ℕ
out_weight reading = 88
out_weight processing = 64
out_weight mstcp_writing = 40
out_weight adapter_writing = 16

abbrev pc_weight : Stage → Pc → ℕ
pc_weight i top = 3
pc_weight i enter = 2
pc_weight i woken = 2
pc_weight i checking = 1
pc_weight i asleep = 0
pc_weight i done = 0
pc_weight i (hold b) = queue_weight i - 8
pc_weight i (out b) = out_weight i

abbrev weight : Stage → List Block → Pc → ℕ
weight i q p = length q * queue_weight i + pc_weight i p

pub work_left : {S : Type 0} → System S → ℕ
work_left s = total (λ i. weight i (s.queue i) (s.pc i))

taken-weight :
    (i : Stage) (b : Block) (q : List Block)
    → weight i q (hold b) + 1 ≤ length (b ∷ q) * queue_weight i + 2
taken-weight reading b q = omega arith
taken-weight processing b q = omega arith
taken-weight mstcp_writing b q = omega arith
taken-weight adapter_writing b q = omega arith

-- A push, with the next thread's wake-up.
pushed-weight :
    (i : Stage) (q : List Block) (b : Block)
    → (length q + 1) * queue_weight (next_stage i) + 3 + 3
      ≤ length q * queue_weight (next_stage i) + out_weight i
pushed-weight reading q b = omega arith
pushed-weight processing q b = omega arith
pushed-weight mstcp_writing q b = omega arith
pushed-weight adapter_writing q b = omega arith

wake-weight : (i : Stage) (p : Pc) → pc_weight i (wake p) ≤ pc_weight i p + 2
wake-weight i top = omega arith
wake-weight i enter = omega arith
wake-weight i checking = omega arith
wake-weight i asleep = omega arith
wake-weight i woken = omega arith
wake-weight i done = omega arith
wake-weight i (hold b) = omega arith
wake-weight i (out b) = omega arith

module _ {S : Type 0} (cs : Callbacks S) where
  -- A step of a thread that brings the work nearer to its end, and reads nothing.
  pub record Moved (s : System S) : Type 0 where
    pub then : System S
    pub by_step : Step cs false s then
    pub less : work_left then + 1 ≤ work_left s
    pub same_read : then.log.read ≡ s.log.read
    pub still_running : then.filter_state ≡ running
    pub still_idle : then.controller ≡ idle

  -- A thread that has nothing to do but to wait for another, or for the driver.
  pub data Rests (s : System S) : Stage → Type 0 where
    sleeping : {i : Stage} → s.pc i ≡ asleep → Rests s i
    reads : (b : Block) → s.pc reading ≡ hold b → Rests s reading

  module _ {s : System S} (g : Sound s) (r : s.filter_state ≡ running)
      (c : s.controller ≡ idle) where
    paces :
        (i : Stage) (p old : Pc)
        → s.pc i ≡ old
        → Step cs false s (set_pc s i p)
        → pc_weight i p + 1 ≤ pc_weight i old
        → Moved s
    unfolding work_left
    paces i p old e st le = record {
      then = set_pc s i p;
      by_step = st;
      less = omega (arith, total-upd_one weight s.queue s.pc p i, ap (pc_weight i) e);
      same_read = refl;
      still_running = r;
      still_idle = c;
    }

    takes :
        (i : Stage) (b : Block) (q : List Block) (old : Pc)
        → s.pc i ≡ old
        → s.queue i ≡ b ∷ q
        → Step cs false s (taken s i b q)
        → pc_weight i old ≡ 2
        → Moved s
    unfolding work_left
    takes i b q old e f st w = record {
      then = taken s i b q;
      by_step = st;
      less = omega (
        arith,
        total-upd weight s.queue s.pc q (hold b) i,
        taken-weight i b q,
        ap (λ x. length x * queue_weight i) f,
        ap (pc_weight i) e,
      );
      same_read = refl;
      still_running = r;
      still_idle = c;
    }

    pushes : (i : Stage) (b : Block) → s.pc i ≡ out b → s.pc (next_stage i) ≢ checking → Moved s
    unfolding work_left
    pushes i b e n = record {
      then = pushed s i b;
      by_step = push i b e n;
      less =
          let q = s.queue (next_stage i) in
          omega (
            arith,
            total-upd weight s.queue (upd s.pc i top) (q ++ (b ∷ [])) (wake (s.pc (next_stage i)))
                (next_stage i),
            total-upd_one weight s.queue s.pc top i,
            ap (pc_weight i) e,
            ap (pc_weight (next_stage i)) (upd-next s.pc i top),
            wake-weight (next_stage i) (s.pc (next_stage i)),
            pushed-weight i q b,
            ap (λ k. k * queue_weight (next_stage i)) (length-append q (b ∷ [])),
          );
      same_read = refl;
      still_running = r;
      still_idle = c;
    }

    -- The thread does its work, or, where that is reading, may wait for the driver.
    works : (i : Stage) (b : Block) → s.pc i ≡ hold b → Moved s ⊎ Rests s i
    unfolding work_left
    works reading b e = inr (reads b e)
    works processing b e =
        let (b', q, d) =
          process_block-Distributed cs s.user b (Fits-Ready (in_hold g processing b e)) in
        inl (record {
          then = _;
          by_step = process b b' _ e q;
          less = omega (
            arith,
            total-upd_one weight s.queue s.pc (out b') processing,
            ap (pc_weight processing) e,
          );
          same_read = refl;
          still_running = r;
          still_idle = c;
        })
    works mstcp_writing b e =
        let (ps, l) = (in_hold g mstcp_writing b e).mstcp_load in
        inl (record {
          then = _;
          by_step = send_mstcp b (sent_mstcp b) ps e (write_mstcp_lem b ps l);
          less = omega (
            arith,
            total-upd_one weight s.queue s.pc (out (sent_mstcp b)) mstcp_writing,
            ap (pc_weight mstcp_writing) e,
          );
          same_read = refl;
          still_running = r;
          still_idle = c;
        })
    works adapter_writing b e =
        let (ps, l) = (in_hold g adapter_writing b e).adapter_load in
        inl (record {
          then = _;
          by_step = send_adapter b (sent_adapter b) ps e (write_adapter_lem b ps l);
          less = omega (
            arith,
            total-upd_one weight s.queue s.pc (out (sent_adapter b)) adapter_writing,
            ap (pc_weight adapter_writing) e,
          );
          same_read = refl;
          still_running = r;
          still_idle = c;
        })

    looks :
        (i : Stage) (old : Pc)
        → s.pc i ≡ old
        → pc_weight i old ≡ 2
        → ((b : Block) (q : List Block) → s.queue i ≡ b ∷ q → Step cs false s (taken s i b q))
        → (s.queue i ≡ [] → Step cs false s (set_pc s i checking))
        → (q : List Block) → s.queue i ≡ q
        → Moved s
    looks i old e w t k [] f = paces i checking old e (k f) (omega arith)
    looks i old e w t k (b ∷ q) f = takes i b q old e f (t b q f) w

    runs : (i : Stage) → s.pc i ≢ done
    unfolding Meets
    runs i e =
        let m = subst (λ st. Meets (ended st s.controller i) (s.pc i)) r (g.threads i) in
        let m' = subst (λ k. Meets (ended running k i) (s.pc i)) c m in
        let z : true ≡ false = sym (ap is_done e) ∙ m' in cc

    pcs : (i : Stage) (p : Pc) → s.pc i ≡ p → Moved s ⊎ Rests s i
    pcs i top e = inl (paces i enter top e (pass_top i e r) (omega arith))
    pcs i enter e = inl (
        looks i enter e refl (λ b q f. take_first i b q e f (inl r)) (λ f. check i (inl e) f r)
          (s.queue i) refl)
    pcs i woken e = inl (
        looks i woken e refl (λ b q f. take_woken i b q e f r) (λ f. check i (inr e) f r)
          (s.queue i) refl)
    pcs i checking e = inl (paces i asleep checking e (sleep i e) (omega arith))
    pcs i asleep e = inr (sleeping e)
    pcs i done e = absurd (runs i e)
    pcs i (hold b) e = works i b e
    pcs i (out b) e = goes (s.pc (next_stage i)) refl
      where
        goes : (p : Pc) → s.pc (next_stage i) ≡ p → Moved s ⊎ Rests s i
        goes checking k =
            inl (paces (next_stage i) asleep checking k (sleep (next_stage i) k) (omega arith))
        goes p k = inl (pushes i b e (λ z. cc))

    -- Every thread can move, sleeps, or waits for the driver.
    pub Moved-or_Rests : (i : Stage) → Moved s ⊎ Rests s i
    Moved-or_Rests i = pcs i (s.pc i) refl
