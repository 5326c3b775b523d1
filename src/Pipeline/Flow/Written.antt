-- ===== src/Pipeline/Flow/Written.antt =====
-- The blocks of the working threads, by the packets that they are to hand over.
use ndisapi.Base.{ℕ, ◌≡◌, sym, ap, ◌∙◌, List, some}
use mathlib.Core.Path.{subst}
use ndisapi.Pipeline.Distribute.{arrived, process_block-Distributed}
use ndisapi.Pipeline.Rounds.{answers, final, routed}
use ndisapi.Pipeline.{
  Packet, Block, Callbacks, to_adapter, to_mstcp, loaded, process_block, write_mstcp, write_adapter,
}
use ndisapi.Pipeline.Threads.{processing, mstcp_writing, adapter_writing}
use ndisapi.Pipeline.Sound.{Fits}
use ndisapi.Pipeline.Sound.Blocks.{Fits-Ready, sent_mstcp, write_mstcp_lem, write_adapter_lem}
use ndisapi.Pipeline.Flow.{or_nothing, for_stack, for_network}

some-inj {ℓ} : {A : Type ℓ} {a b : A} → some a ≡ some b → a ≡ b
some-inj h = cc

-- The equations of the working steps, read back.
pub processed_block :
    {S : Type 0} {h : ℕ} (cs : Callbacks S) (u u' : S) (b b' : Block)
    → Fits h processing b
    → process_block cs u b ≡ some (u', b')
    → (let xs = answers cs u h (arrived b) in
        (u' ≡ final u xs)
        × (for_network b' ≡ routed to_adapter xs)
        × (for_stack b' ≡ routed to_mstcp xs))
unfolding for_network for_stack
processed_block {h} cs u u' b b' f e =
    subst
      (λ k.
        let xs = answers cs u k (arrived b) in
        (u' ≡ final u xs)
        × (for_network b' ≡ routed to_adapter xs)
        × (for_stack b' ≡ routed to_mstcp xs))
      f.handle
      (let (c, r, d) = process_block-Distributed cs u b (Fits-Ready f) in
        let same = some-inj (sym e ∙ r) in
        (
          ap (λ p. p.0) same,
          ap (λ p. or_nothing (loaded p.1.packets p.1.write_adapter_request)) same
              ∙ ap or_nothing d.adapter_loaded,
          ap (λ p. or_nothing (loaded p.1.packets p.1.write_mstcp_request)) same
              ∙ ap or_nothing d.mstcp_loaded,
        ))

pub written_mstcp :
    {h : ℕ} (b b' : Block) (ps : List Packet)
    → Fits h mstcp_writing b
    → write_mstcp b ≡ some (ps, b')
    → (for_stack b ≡ ps) × (for_network b' ≡ for_network b)
unfolding for_network for_stack sent_mstcp
written_mstcp b b' ps f e =
    let (qs, l) = f.mstcp_load in
    let same = some-inj (sym (write_mstcp_lem b qs l) ∙ e) in
    (ap or_nothing l ∙ ap (λ p. p.0) same, sym (ap (λ p. for_network p.1) same))

pub written_adapter :
    {h : ℕ} (b b' : Block) (ps : List Packet)
    → Fits h adapter_writing b
    → write_adapter b ≡ some (ps, b')
    → for_network b ≡ ps
unfolding for_network
written_adapter b b' ps f e =
    let (qs, l) = f.adapter_load in
    ap or_nothing l ∙ ap (λ p. p.0) (some-inj (sym (write_adapter_lem b qs l) ∙ e))
