-- ===== src/Pipeline/Flow/Segments.antt =====
-- How the packets on their way change as the threads and their queues do.
use ndisapi.Base.{ℕ, ◌≡◌, refl, sym, ap, ◌∙◌, List, [], ◌∷◌, ◌++◌, append-nil, append_assoc}
use ndisapi.Pipeline.{ask_filter, Packet, Block, Callbacks, Answer, Target}
use ndisapi.Pipeline.Rounds.{answers, final, routed}
use ndisapi.Pipeline.Threads.{
  Stage, reading, processing, mstcp_writing, adapter_writing, next_stage, Pc, top, enter, checking,
  asleep, woken, done, hold, out, wake, System, upd, set_pc, taken, pushed,
}
use ndisapi.Pipeline.Stages.{upd-elim, upd-elim_pair}
use ndisapi.Pipeline.Flow.{of_taken, of_ready, of_queue, segment}

module _ {S : Type 0} where
  pub answers-append :
      (cs : Callbacks S) (u : S) (h : ℕ) (xs ys : List Packet)
      → answers cs u h (xs ++ ys)
        ≡ answers cs u h xs ++ answers cs (final u (answers cs u h xs)) h ys
  unfolding answers final
  answers-append cs u h [] ys = refl
  answers-append cs u h (x ∷ xs) ys =
      let a : Answer S = ask_filter cs u h x in ap (λ t. a ∷ t) (answers-append cs a.user h xs ys)

  pub final-append : (u : S) (xs ys : List (Answer S)) → final u (xs ++ ys) ≡ final (final u xs) ys
  unfolding final
  final-append u [] ys = refl
  final-append u (x ∷ xs) ys = final-append x.user xs ys

  pub routed-append :
      (t : Target) (xs ys : List (Answer S)) → routed t (xs ++ ys) ≡ routed t xs ++ routed t ys
  unfolding routed
  routed-append t [] ys = refl
  routed-append t (x ∷ xs) ys = simp (routed-append t xs ys, append_assoc)

module _ (f : Block → List Packet) where
  of_queue-push : (q : List Block) (b : Block) → of_queue f (q ++ (b ∷ [])) ≡ of_queue f q ++ f b
  of_queue-push [] b = append-nil (f b)
  of_queue-push (x ∷ q) b = simp (of_queue-push q b, append_assoc)

  pub of_taken-wake : (p : Pc) → of_taken f (wake p) ≡ of_taken f p
  of_taken-wake top = refl
  of_taken-wake enter = refl
  of_taken-wake checking = refl
  of_taken-wake asleep = refl
  of_taken-wake woken = refl
  of_taken-wake done = refl
  of_taken-wake (hold b) = refl
  of_taken-wake (out b) = refl

  pub of_ready-wake : (p : Pc) → of_ready f (wake p) ≡ of_ready f p
  of_ready-wake top = refl
  of_ready-wake enter = refl
  of_ready-wake checking = refl
  of_ready-wake asleep = refl
  of_ready-wake woken = refl
  of_ready-wake done = refl
  of_ready-wake (hold b) = refl
  of_ready-wake (out b) = refl

  -- A thread moves that neither takes a block nor lets it go.
  pub segment-move :
      {S : Type 0} (s : System S) (i : Stage) (p : Pc)
      → of_taken f p ≡ of_taken f (s.pc i)
      → of_ready f p ≡ of_ready f (s.pc i)
      → (j : Stage) → segment f (set_pc s i p) j ≡ segment f s j
  unfolding segment
  segment-move s i p t r j =
      let a : (k : Stage) → of_taken f (upd s.pc i p k) ≡ of_taken f (s.pc k) =
        upd-elim (λ k q. of_taken f q ≡ of_taken f (s.pc k)) i t (λ k. refl) in
      let c : (k : Stage) → of_ready f (upd s.pc i p k) ≡ of_ready f (s.pc k) =
        upd-elim (λ k q. of_ready f q ≡ of_ready f (s.pc k)) i r (λ k. refl) in
      ap (λ x. x ++ (of_queue f (s.queue (next_stage j)) ++ of_ready f (upd s.pc i p j)))
        (a (next_stage j))
      ∙ ap (λ x. of_taken f (s.pc (next_stage j)) ++ (of_queue f (s.queue (next_stage j)) ++ x))
          (c j)

  regroup :
      (a a' b b' : List Packet) {c c' : List Packet}
      → a ++ b ≡ a' ++ b'
      → c ≡ c'
      → a ++ (b ++ c) ≡ a' ++ (b' ++ c')
  regroup a a' b b' {c} e r =
      sym (append_assoc a b c)
      ∙ ap (λ x. x ++ c) e
      ∙ append_assoc a' b' c
      ∙ ap (λ x. a' ++ (b' ++ x)) r

  -- The first block of a queue is taken: nothing changes its place in the order.
  pub segment-taken :
      {S : Type 0} (s : System S) (i : Stage) (b : Block) (q : List Block)
      → s.queue i ≡ b ∷ q
      → of_taken f (s.pc i) ≡ []
      → of_ready f (s.pc i) ≡ []
      → (j : Stage) → segment f (taken s i b q) j ≡ segment f s j
  unfolding segment
  segment-taken s i b q e t r j =
      regroup (of_taken f (upd s.pc i (hold b) (next_stage j))) (of_taken f (s.pc (next_stage j)))
        (of_queue f (upd s.queue i q (next_stage j))) (of_queue f (s.queue (next_stage j)))
        (upd-elim_pair
          (λ k x p. of_taken f p ++ of_queue f x ≡ of_taken f (s.pc k) ++ of_queue f (s.queue k))
          {f = s.queue} {g = s.pc} i
          (sym (ap (λ x. x ++ of_queue f (s.queue i)) t ∙ ap (of_queue f) e)) (λ k. refl)
          (next_stage j))
        (upd-elim (λ k p. of_ready f p ≡ of_ready f (s.pc k)) {f = s.pc} i (sym r) (λ k. refl) j)

  pushed-part :
      (queue : Stage → List Block) (pc : Stage → Pc) (b : Block) (i j : Stage)
      → pc i ≡ out b
      → of_queue f (upd queue (next_stage i) (queue (next_stage i) ++ (b ∷ [])) (next_stage j))
          ++ of_ready f (upd (upd pc i top) (next_stage i) (wake (pc (next_stage i))) j)
        ≡ of_queue f (queue (next_stage j)) ++ of_ready f (pc j)
  pushed-part queue pc b reading reading e =
      ap (λ x. x ++ []) (of_queue-push (queue (next_stage reading)) b)
      ∙ append-nil _
      ∙ ap (λ x. of_queue f (queue (next_stage reading)) ++ x) (sym (ap (of_ready f) e))
  pushed-part queue pc b reading processing e =
      ap (λ x. of_queue f (queue (next_stage processing)) ++ x) (of_ready-wake (pc processing))
  pushed-part queue pc b reading mstcp_writing e = refl
  pushed-part queue pc b reading adapter_writing e = refl
  pushed-part queue pc b processing reading e = refl
  pushed-part queue pc b processing processing e =
      ap (λ x. x ++ []) (of_queue-push (queue (next_stage processing)) b)
      ∙ append-nil _
      ∙ ap (λ x. of_queue f (queue (next_stage processing)) ++ x) (sym (ap (of_ready f) e))
  pushed-part queue pc b processing mstcp_writing e =
      ap (λ x. of_queue f (queue (next_stage mstcp_writing)) ++ x)
        (of_ready-wake (pc mstcp_writing))
  pushed-part queue pc b processing adapter_writing e = refl
  pushed-part queue pc b mstcp_writing reading e = refl
  pushed-part queue pc b mstcp_writing processing e = refl
  pushed-part queue pc b mstcp_writing mstcp_writing e =
      ap (λ x. x ++ []) (of_queue-push (queue (next_stage mstcp_writing)) b)
      ∙ append-nil _
      ∙ ap (λ x. of_queue f (queue (next_stage mstcp_writing)) ++ x) (sym (ap (of_ready f) e))
  pushed-part queue pc b mstcp_writing adapter_writing e =
      ap (λ x. of_queue f (queue (next_stage adapter_writing)) ++ x)
        (of_ready-wake (pc adapter_writing))
  pushed-part queue pc b adapter_writing reading e =
      ap (λ x. of_queue f (queue (next_stage reading)) ++ x) (of_ready-wake (pc reading))
  pushed-part queue pc b adapter_writing processing e = refl
  pushed-part queue pc b adapter_writing mstcp_writing e = refl
  pushed-part queue pc b adapter_writing adapter_writing e =
      ap (λ x. x ++ []) (of_queue-push (queue (next_stage adapter_writing)) b)
      ∙ append-nil _
      ∙ ap (λ x. of_queue f (queue (next_stage adapter_writing)) ++ x) (sym (ap (of_ready f) e))

  -- A block goes from a hand to the end of the next queue.
  pub segment-pushed :
      {S : Type 0} (s : System S) (i : Stage) (b : Block)
      → s.pc i ≡ out b
      → (j : Stage) → segment f (pushed s i b) j ≡ segment f s j
  unfolding segment
  segment-pushed s i b e j =
      ap
        (λ x.
          x
          ++ (of_queue f ((pushed s i b).queue (next_stage j)) ++ of_ready f ((pushed s i b).pc j)))
        (upd-elim (λ k p. of_taken f p ≡ of_taken f (s.pc k)) {f = upd s.pc i top} (next_stage i)
          (of_taken-wake (s.pc (next_stage i)))
          (upd-elim (λ k p. of_taken f p ≡ of_taken f (s.pc k)) {f = s.pc} i
            (sym (ap (of_taken f) e)) (λ k. refl))
          (next_stage j))
      ∙ ap (λ x. of_taken f (s.pc (next_stage j)) ++ x) (pushed-part s.queue s.pc b i j e)
