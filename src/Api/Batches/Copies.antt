-- ===== src/Api/Batches/Copies.antt =====
-- The loops that copy many packets between the structures.
use ndisapi.Base.{
  ℕ, zero, suc, ◌≡◌, ◌∙◌, refl, ap, none, some, List, [], ◌∷◌, arith, length, length-replicate, ◌*◌,
  ◌^◌, ◌<◌,
}
use ndisapi.Driver.{IntermediateBuffer}
use ndisapi.Driver.Sizes.{max_ether_frame, sizeof_intermediate_buffer_wow64}
use ndisapi.Api.Packets.{copy_packet}
use ndisapi.Api.Packets.Thunks.{SamePacket, Fits, copy_packet-Received}
use ndisapi.Api.Batches.{zero_buffer, copy_out, in_block}

-- The first `n` packets are there and fit their buffers.
abbrev pub AllFit : ℕ → List IntermediateBuffer → Type 0
AllFit zero ps = Unit
AllFit (suc n) [] = ⊥
AllFit (suc n) (p ∷ ps) = Fits p × AllFit n ps

-- The buffers carry the first `n` packets, in order, and there is no other buffer.
abbrev pub Carries : ℕ → List IntermediateBuffer → List IntermediateBuffer → Type 0
Carries zero ps [] = Unit
Carries zero ps (b ∷ bs) = ⊥
Carries (suc n) [] bs = ⊥
Carries (suc n) (p ∷ ps) [] = ⊥
Carries (suc n) (p ∷ ps) (b ∷ bs) = SamePacket b p × Carries n ps bs

zero_buffer-size : length zero_buffer.ibuffer ≡ max_ether_frame
unfolding zero_buffer
zero_buffer-size = length-replicate {A = ℕ} max_ether_frame 0

copy_out-step :
    (n : ℕ) (p b : IntermediateBuffer) (ps bs : List IntermediateBuffer)
    → copy_packet zero_buffer p ≡ some b
    → copy_out n ps ≡ some bs
    → copy_out (suc n) (p ∷ ps) ≡ some (b ∷ bs)
unfolding copy_out
copy_out-step n p b ps bs one rest =
    ap
      (λ o. elim o [
        | none ↦ none
        | some b' ↦ elim (copy_out n ps) [ none ↦ none | some bs' ↦ some (b' ∷ bs') ]
      ])
      one
    ∙ ap (λ o. elim o [ none ↦ none | some bs' ↦ some (b ∷ bs') ]) rest

-- The loop of the batch methods copies the first `n` packets, which fit their buffers, each to the
-- buffer of its place, and builds no other buffer.
pub copy_out-Carries :
    (n : ℕ) (ps : List IntermediateBuffer)
    → AllFit n ps
    → (bs : List IntermediateBuffer) × (copy_out n ps ≡ some bs) × Carries n ps bs
unfolding copy_out
copy_out-Carries zero ps a = ([], refl, tt)
copy_out-Carries (suc n) [] a = absurd a
copy_out-Carries (suc n) (p ∷ ps) (f, a) =
    let (bs, out, carries) = copy_out-Carries n ps a in
    let (b, one, r) =
      copy_packet-Received zero_buffer p (omega (arith, f.array, f.within))
        (omega (arith, f.within, zero_buffer-size)) in
    (b ∷ bs, copy_out-step n p b ps bs one out, (r.same, carries))

-- A number of packets whose copies are of less than 2^32 bytes gets a whole block.
pub in_block_lem : (n : ℕ) → n * sizeof_intermediate_buffer_wow64 4 < 2 ^ 32 → in_block n ≡ some tt
unfolding in_block
in_block_lem n h = ground arith
