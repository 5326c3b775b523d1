-- ===== src/Pipeline/Flow/Order.antt =====
-- Lists in the order of the packets: what is handed on at the end of a part of the way, or leaves at
-- its front.
use ndisapi.Base.{◌≡◌, sym, ap, ◌∙◌, List, [], ◌++◌, append-nil, append_assoc}
use ndisapi.Pipeline.{Packet, Block}
use ndisapi.Pipeline.Threads.{Stage, next_stage, done, System}
use ndisapi.Pipeline.Flow.{of_taken, of_ready, of_queue, segment}

-- What comes last on the way is handed on at the end.
pub at_end :
    {r e : List Packet} (l t q x : List Packet)
    → r ≡ l ++ (t ++ (q ++ e))
    → e ≡ []
    → r ++ x ≡ l ++ (t ++ (q ++ x))
at_end {r} {e} l t q x h z =
    let k : r ≡ l ++ (t ++ (q ++ [])) = h ∙ ap (λ y. l ++ (t ++ (q ++ y))) z in
    ap (λ y. y ++ x) k ∙ simp (append_assoc, append-nil)

-- What comes first leaves.
pub at_front :
    {r e : List Packet} (l x m : List Packet) → r ≡ l ++ (e ++ m) → e ≡ x → r ≡ (l ++ x) ++ m
at_front {e} l x m h z = h ∙ ap (λ y. l ++ (y ++ m)) z ∙ sym (append_assoc l x m)

-- From the front of one part of the way to the end of the part before.
pub across :
    {e d : List Packet} (t q x m : List Packet)
    → e ≡ []
    → d ≡ x
    → (t ++ (q ++ e)) ++ (d ++ m) ≡ (t ++ (q ++ x)) ++ m
across {e} {d} t q x m z y =
    ap (λ k. (t ++ (q ++ k)) ++ (d ++ m)) z
    ∙ ap (λ k. (t ++ (q ++ [])) ++ (k ++ m)) y
    ∙ simp (append_assoc, append-nil)

pub empty-segment :
    {S : Type 0} (f : Block → List Packet) (s : System S) (i : Stage)
    → s.pc (next_stage i) ≡ done
    → s.queue (next_stage i) ≡ []
    → s.pc i ≡ done
    → segment f s i ≡ []
unfolding segment
empty-segment f s i a q c =
    ap (λ p. of_taken f p ++ (of_queue f (s.queue (next_stage i)) ++ of_ready f (s.pc i))) a
    ∙ ap (λ x. of_queue f x ++ of_ready f (s.pc i)) q
    ∙ ap (of_ready f) c
