-- ===== src/Pipeline/Delivery.antt =====
-- How the packets on their way come to their ends while the filter runs.
use ndisapi.Base.{
  ℕ, zero, suc, ◌≤◌, ◌≡◌, ◌≢◌, ◌⊎◌, inl, inr, refl, sym, ap, ◌∙◌, arith, false, List, [], ◌++◌,
  append-nil, length,
}
use mathlib.Core.Path.{subst}
use ndisapi.Pipeline.{Packet, Block, Callbacks, to_adapter, to_mstcp, maximum_block_num}
use ndisapi.Pipeline.Distribute.{arrived}
use ndisapi.Pipeline.Rounds.{answers, routed}
use ndisapi.Pipeline.Threads.{
  running, Stage, reading, processing, mstcp_writing, adapter_writing, next_stage, asleep, hold,
  idle, System,
}
use ndisapi.Pipeline.System.{Reach, later, Run, stay, step}
use ndisapi.Pipeline.Stages.{total}
use ndisapi.Pipeline.Sound.{Stock, in_hand, load, waits, Sound}
use ndisapi.Pipeline.Sound.Keep.{Reach-Sound}
use ndisapi.Pipeline.Flow.{
  for_stack, for_network, of_taken, of_ready, of_queue, segment, waiting, stack_bound,
  network_bound, live,
}
use ndisapi.Pipeline.Flow.Keep.{Reach-Flow}
use ndisapi.Pipeline.Progress.{work_left, Moved, Rests, sleeping, reads, Moved-or_Rests}

module _ {S : Type 0} (cs : Callbacks S) where
  -- Every thread but the reading one sleeps at an empty queue, and no block is on its way.
  record Quiet (s : System S) : Type 0 where
    rests : (i : Stage) → Rests cs s i

  at_rest : {s : System S} (i : Stage) → i ≢ reading → Rests cs s i → s.pc i ≡ asleep
  at_rest i n (sleeping e) = e
  at_rest i n (reads b e) = absurd (n refl)

  reader :
      {s : System S}
      → Rests cs s reading
      → (s.pc reading ≡ asleep) ⊎ ((b : Block) × (s.pc reading ≡ hold b))
  reader (sleeping e) = inl e
  reader (reads b e) = inr (b, e)

  pause :
      {s : System S}
      → Sound s
      → s.filter_state ≡ running
      → s.controller ≡ idle
      → Moved cs s ⊎ Quiet s
  pause {s} g r c =
      go (Moved-or_Rests cs g r c reading) (Moved-or_Rests cs g r c processing)
        (Moved-or_Rests cs g r c mstcp_writing) (Moved-or_Rests cs g r c adapter_writing)
    where
      go :
          Moved cs s ⊎ Rests cs s reading
          → Moved cs s ⊎ Rests cs s processing
          → Moved cs s ⊎ Rests cs s mstcp_writing
          → Moved cs s ⊎ Rests cs s adapter_writing
          → Moved cs s ⊎ Quiet s
      go (inl m) b c d = inl m
      go (inr a) (inl m) c d = inl m
      go (inr a) (inr b) (inl m) d = inl m
      go (inr a) (inr b) (inr c) (inl m) = inl m
      go (inr a) (inr b) (inr c) (inr d) = inr (record {
        rests = λ i. elim i as (λ j. Rests cs s j) [
          | reading ↦ a
          | processing ↦ b
          | mstcp_writing ↦ c
          | adapter_writing ↦ d
        ];
      })

  -- A state that a run without reading leads to.
  record Settled (s : System S) : Type 0 where
    at : System S
    reach : Reach cs false at
    run : Run cs false s at
    same_read : at.log.read ≡ s.log.read
    runs : at.filter_state ≡ running
    quiet : Quiet at

  settles :
      (n : ℕ) (s t : System S)
      → Reach cs false t
      → Run cs false s t
      → t.log.read ≡ s.log.read
      → t.filter_state ≡ running
      → t.controller ≡ idle
      → work_left t ≤ n
      → Settled s
  settles zero s t r u l f c le = elim (pause (Reach-Sound r) f c) [
    | inl m ↦ absurd (omega (arith, m.less))
    | inr q ↦ record { at = t; reach = r; run = u; same_read = l; runs = f; quiet = q }
  ]
  settles (suc n) s t r u l f c le = elim (pause (Reach-Sound r) f c) [
    | inl m ↦
        settles n s m.then (later r m.by_step) (step u m.by_step) (m.same_read ∙ l) m.still_running
          m.still_idle (omega (arith, m.less))
    | inr q ↦ record { at = t; reach = r; run = u; same_read = l; runs = f; quiet = q }
  ]

  Quiet-queue : {s : System S} → Sound s → Quiet s → (i : Stage) → i ≢ reading → s.queue i ≡ []
  Quiet-queue g q i n = (g.local i).no_work (ap waits (at_rest i n (q.rests i)))

  Quiet-ready :
      {s : System S} (f : Block → List Packet) → Quiet s → (i : Stage) → of_ready f (s.pc i) ≡ []
  Quiet-ready {s} f q i = go (q.rests i)
    where
      go : {j : Stage} → Rests cs s j → of_ready f (s.pc j) ≡ []
      go (sleeping e) = ap (of_ready f) e
      go (reads b e) = ap (of_ready f) e

  Quiet-segment :
      {s : System S} (f : Block → List Packet)
      → Sound s
      → Quiet s
      → (i : Stage) → next_stage i ≢ reading
      → segment f s i ≡ []
  unfolding segment
  Quiet-segment {s} f g q i n =
      ap (λ p. of_taken f p ++ (of_queue f (s.queue (next_stage i)) ++ of_ready f (s.pc i)))
        (at_rest (next_stage i) n (q.rests (next_stage i)))
      ∙ ap (λ x. of_queue f x ++ of_ready f (s.pc i)) (Quiet-queue g q (next_stage i) n)
      ∙ Quiet-ready f q i

  -- With all the others at rest, the ten blocks are with the reading thread.
  Quiet-reads :
      {s : System S}
      → Sound s
      → Quiet s
      → s.filter_state ≡ running
      → (b : Block) × (s.pc reading ≡ hold b)
  unfolding Stock
  Quiet-reads {s} g q r = go (reader (q.rests reading))
    where
      go :
          (s.pc reading ≡ asleep) ⊎ ((b : Block) × (s.pc reading ≡ hold b))
          → (b : Block) × (s.pc reading ≡ hold b)
      go (inr x) = x
      go (inl e) =
          let st : total (λ i. load (s.queue i) (s.pc i)) ≡ maximum_block_num =
            subst (λ x. Stock x s.controller (total (λ i. load (s.queue i) (s.pc i)))) r g.stock in
          absurd (
            omega (
              arith,
              st,
              ap length ((g.local reading).no_work (ap waits e)),
              ap in_hand e,
              ap length (Quiet-queue g q processing (λ z. cc)),
              ap in_hand (at_rest processing (λ z. cc) (q.rests processing)),
              ap length (Quiet-queue g q mstcp_writing (λ z. cc)),
              ap in_hand (at_rest mstcp_writing (λ z. cc) (q.rests mstcp_writing)),
              ap length (Quiet-queue g q adapter_writing (λ z. cc)),
              ap in_hand (at_rest adapter_writing (λ z. cc) (q.rests adapter_writing)),
            ))

-- Everything that was read has been answered and handed over, and the reading thread has a block for
-- the next read.
pub record Delivered {S : Type 0} (cs : Callbacks S) (s t : System S) : Type 0 where
  pub run : Run cs false s t
  pub same_read : t.log.read ≡ s.log.read
  pub still_running : t.filter_state ≡ running
  pub stack : t.log.to_stack ≡ routed to_mstcp (answers cs t.log.origin t.log.handle t.log.read)
  pub network :
      t.log.to_network ≡ routed to_adapter (answers cs t.log.origin t.log.handle t.log.read)
  pub reads_on : (b : Block) × (t.pc reading ≡ hold b)

-- From every state that the running filter can come to without wake-ups that nobody asked for, while
-- its caller is in neither start_filter nor stop_filter, the threads can go on, without reading, to
-- a state in which all the packets that were read have been through the callbacks, those that are to
-- go to the stack and to the network have been handed over, each once and in order, and the reading
-- thread has a block for its next read.
pub Reach-Delivered :
    {S : Type 0} {cs : Callbacks S} {s : System S}
    → Reach cs false s
    → s.filter_state ≡ running
    → s.controller ≡ idle
    → (t : System S) × Delivered cs s t
unfolding waiting stack_bound network_bound
Reach-Delivered {S} {cs} {s} r f c =
    let z = settles cs (work_left s) s s r stay refl f c (omega arith) in
    let t : System S = z.at in
    let g = Reach-Sound z.reach in
    let w = Reach-Flow z.reach (ap live z.runs) in
    let all : t.log.read ≡ w.processed =
      w.read
      ∙ ap (λ x. w.processed ++ x) (Quiet-segment cs arrived g z.quiet reading (λ e. cc))
      ∙ append-nil w.processed in
    (
      t,
      record {
        run = z.run;
        same_read = z.same_read;
        still_running = z.runs;
        stack =
            sym (append-nil t.log.to_stack)
            ∙ ap (λ x. t.log.to_stack ++ x)
                (sym (Quiet-segment cs for_stack g z.quiet processing (λ e. cc)))
            ∙ sym w.stack
            ∙ ap (λ x. routed to_mstcp (answers cs t.log.origin t.log.handle x)) (sym all);
        network =
            sym (append-nil t.log.to_network)
            ∙ ap (λ x. t.log.to_network ++ x)
                (sym (
                  ap (λ x. x ++ segment for_network t processing)
                    (Quiet-segment cs for_network g z.quiet mstcp_writing (λ e. cc))
                  ∙ Quiet-segment cs for_network g z.quiet processing (λ e. cc)))
            ∙ sym w.network
            ∙ ap (λ x. routed to_adapter (answers cs t.log.origin t.log.handle x)) (sym all);
        reads_on = Quiet-reads cs g z.quiet z.runs;
      },
    )
