-- ===== src/Pipeline/Rounds.antt =====
-- The loop of packet_process_thread, round by round, and the answers of the callbacks in order.
use ndisapi.Base.{
  append-nil, append_assoc, ℕ, zero, suc, ◌+◌, ◌≤◌, ◌<◌, ◌≡◌, refl, sym, ap, ◌∙◌, arith, List, [],
  ◌∷◌, ◌++◌, Option, none, some, length, get_elem?, get_or, set, take, drop, get_elem?-eq-get_or,
  length-set,
}
use ndisapi.Pipeline.Loads.{
  pick, Loads, placed, after, place_lem, placed-Loads, placed-packets, placed-read_request,
}
use mathlib.Core.Path.{subst}
use ndisapi.Pipeline.{
  Packet, Block, Answer, Callbacks, Target, to_adapter, to_mstcp, target, put_packet, ask_filter,
  process_packets,
}

-- The answers of the callbacks to the packets, in their order.
module _ {S : Type 0} where
  unfoldable pub answers : Callbacks S → S → ℕ → List Packet → List (Answer S)
  unfolding ask_filter
  answers cs u h [] = []
  answers cs u h (p ∷ ps) = let a = ask_filter cs u h p in a ∷ answers cs a.user h ps

  unfoldable pub final : S → List (Answer S) → S
  final u [] = u
  final u (a ∷ xs) = final a.user xs

  -- The packets of the answers that have a target.
  unfoldable pub routed : Target → List (Answer S) → List Packet
  unfolding target pick
  routed t [] = []
  routed t (a ∷ xs) = pick t (target a.action a.packet.device_flags) a.packet ++ routed t xs

drop-cons :
    (i : ℕ) (ps : List Packet) (p : Packet)
    → get_elem? ps i ≡ some p
    → drop i ps ≡ p ∷ drop (suc i) ps
drop-cons i [] p e = cc
drop-cons zero (x ∷ ps) p e = cc
drop-cons (suc i) (x ∷ ps) p e = drop-cons i ps p e

drop-set : (i : ℕ) (ps : List Packet) (p : Packet) → drop (suc i) (set ps i p) ≡ drop (suc i) ps
drop-set i [] p = refl
drop-set zero (x ∷ ps) p = refl
drop-set (suc i) (x ∷ ps) p = drop-set i ps p

module _ {S : Type 0} (cs : Callbacks S) where
  -- What the loop leaves, for the answers that the callbacks gave.
  pub record Result (b : Block) (outs ins : List Packet) (i : ℕ) (xs : List (Answer S)) (u : S)
      (r : Option (S × Block)) : Type 0 where
    pub block : Block
    pub returns : r ≡ some (final u xs, block)
    pub loads : Loads block i (outs ++ routed to_adapter xs) (ins ++ routed to_mstcp xs)
    pub same_read : block.read_request ≡ b.read_request
    pub same_length : length block.packets ≡ length b.packets

  Result-cons :
      {b b' : Block} {outs ins : List Packet} {i : ℕ} {xs : List (Answer S)} {u : S}
      {r : Option (S × Block)} (a : Answer S)
      → b'.read_request ≡ b.read_request
      → length b'.packets ≡ length b.packets
      → Result b'
          (outs ++ pick to_adapter (target a.action a.packet.device_flags) a.packet)
          (ins ++ pick to_mstcp (target a.action a.packet.device_flags) a.packet)
          i
          xs
          a.user
          r
      → Result b outs ins i (a ∷ xs) u r
  unfolding final routed
  Result-cons {outs} {ins} {i} {xs} a same len r = record {
    block = r.block;
    returns = r.returns;
    loads =
        subst (λ t. Loads r.block i t (ins ++ routed to_mstcp (a ∷ xs))) (append_assoc outs _ _)
          (subst
            (λ t.
              Loads r.block i
                ((outs ++ pick to_adapter (target a.action a.packet.device_flags) a.packet)
                  ++ routed to_adapter xs)
                t)
            (append_assoc ins _ _) r.loads);
    same_read = r.same_read ∙ same;
    same_length = r.same_length ∙ len;
  }

  -- One round of the loop.
  round :
      (n i : ℕ) (u : S) (b : Block) {outs ins : List Packet} (l : Loads b i outs ins) (p : Packet)
      → i < length b.packets
      → get_elem? b.packets i ≡ some p
      → process_packets (suc n) i cs u b ≡ (
          let a = ask_filter cs u b.read_request.adapter_handle p in
          process_packets n
            (suc i)
            cs
            a.user
            (placed (target a.action a.packet.device_flags) i (after l a.packet)))
  unfolding process_packets after
  round n i u b l p lt e =
      let a : Answer S = ask_filter cs u b.read_request.adapter_handle p in
      ap
        (λ o. elim o as (λ _. Option (S × Block)) [
          | none ↦ none
          | some q ↦
              let c = ask_filter cs u b.read_request.adapter_handle q in
              elim (put_packet (target c.action c.packet.device_flags) i
                (record b { packets = set b.packets i c.packet })) [
                  | none ↦ none
                  | some b' ↦ process_packets n (suc i) cs c.user b'
                ]
        ])
        e
      ∙ ap
          (λ o. elim o as (λ _. Option (S × Block)) [
            | none ↦ none
            | some b' ↦ process_packets n (suc i) cs a.user b'
          ])
          (place_lem l a.packet (target a.action a.packet.device_flags) lt)

  tail_answers :
      (n i : ℕ) (u : S) (h : ℕ) (ps qs : List Packet) (p x : Packet)
      → get_elem? ps i ≡ some p
      → qs ≡ set ps i x
      → (let a = ask_filter cs u h p in a ∷ answers cs a.user h (take n (drop (suc i) qs)))
        ≡ answers cs u h (take (suc n) (drop i ps))
  unfolding answers
  tail_answers n i u h ps qs p x e q =
      let a : Answer S = ask_filter cs u h p in
      ap (λ t. a ∷ answers cs a.user h (take n t)) (ap (drop (suc i)) q ∙ drop-set i ps x)
      ∙ ap (λ t. answers cs u h (take (suc n) t)) (sym (drop-cons i ps p e))

  pub loop :
      (n i : ℕ) {j : ℕ} (u : S) (b : Block) {outs ins : List Packet}
      → Loads b i outs ins
      → i + n ≡ j
      → j ≤ length b.packets
      → Result b outs ins j
          (answers cs u b.read_request.adapter_handle (take n (drop i b.packets)))
          u
          (process_packets n i cs u b)
  unfolding process_packets answers final routed after
  loop zero i {j} u b {outs} {ins} l e h = record {
    block = b;
    returns = refl;
    loads = rw (append-nil outs, append-nil ins) (subst (λ k. Loads b k outs ins) (omega arith) l);
    same_read = refl;
    same_length = refl;
  }
  loop (suc n) i {j} u b {outs} {ins} l k h =
      let p : Packet = get_or b.packets i (record { device_flags = 0; frame = [] }) in
      let e : get_elem? b.packets i ≡ some p = get_elem?-eq-get_or b.packets i _ (omega arith) in
      let a : Answer S = ask_filter cs u b.read_request.adapter_handle p in
      let t : Target = target a.action a.packet.device_flags in
      let b' : Block = placed t i (after l a.packet) in
      let ps : b'.packets ≡ set b.packets i a.packet = placed-packets t i (after l a.packet) in
      let rr : b'.read_request ≡ b.read_request = placed-read_request t i (after l a.packet) in
      let len : length b'.packets ≡ length b.packets =
        ap length ps ∙ length-set b.packets i a.packet in
      let r = Result-cons a rr len (
        loop n (suc i) {j = j} a.user b' (placed-Loads l a.packet t (omega arith)) (omega arith)
          (omega (arith, len))) in
      let xs =
        a ∷ answers cs a.user b'.read_request.adapter_handle (take n (drop (suc i) b'.packets)) in
      subst (λ ys. Result b outs ins j ys u (process_packets (suc n) i cs u b))
        (ap (λ q. a ∷ answers cs a.user q.adapter_handle (take n (drop (suc i) b'.packets))) rr
          ∙ tail_answers n i u b.read_request.adapter_handle b.packets b'.packets p a.packet e ps)
        (subst (Result b outs ins j xs u) (sym (round n i u b l p (omega arith) e)) r)
