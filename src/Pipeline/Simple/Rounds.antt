-- ===== src/Pipeline/Simple/Rounds.antt =====
-- The rounds of simple_packet_filter, by the answers of the callbacks.
use ndisapi.Base.{
  ℕ, ◌≤◌, ◌≡◌, refl, sym, ap, ◌∙◌, arith, List, [], ◌∷◌, ◌++◌, Option, none, some, length, take,
}
use mathlib.Core.Path.{subst}
use ndisapi.Pipeline.{
  Packet, Block, Callbacks, Answer, to_adapter, to_mstcp, loaded, write_mstcp, write_adapter,
}
use ndisapi.Pipeline.Threads.{reading, processing, filled}
use ndisapi.Pipeline.Loads.{Leads-follow}
use ndisapi.Pipeline.Rounds.{answers, final, routed, loop}
use ndisapi.Pipeline.Distribute.{Ready-Loads}
use ndisapi.Pipeline.Sound.{Fits}
use ndisapi.Pipeline.Sound.Blocks.{
  loaded-empty, filled-Fits, Fits-Ready, sent_mstcp, sent_adapter, write_mstcp_lem,
  write_adapter_lem,
}
use ndisapi.Pipeline.Flow.Segments.{answers-append, final-append, routed-append}
use ndisapi.Pipeline.Simple.{Read, Turn, reset, turn, turns}

-- The driver fills whole buffers and counts packets of the block.
unfoldable pub Whole : ℕ → List Read → Type 0
Whole size [] = Unit
Whole size (r ∷ rs) = (length r.packets ≡ size) × (r.success ≤ size) × Whole size rs

pub all_read : List Read → List Packet
all_read [] = []
all_read (r ∷ rs) = take r.success r.packets ++ all_read rs

-- What rounds come to, by the answers to the packets.
pub record Routed {S : Type 0} (h : ℕ) (u : S) (b : Block) (xs : List (Answer S))
    (o : Option (Turn S)) : Type 0 where
  pub at : Turn S
  pub returns : o ≡ some at
  pub user : at.user ≡ final u xs
  pub network : at.to_network ≡ routed to_adapter xs
  pub stack : at.to_stack ≡ routed to_mstcp xs
  pub fits : Fits h reading at.block
  pub same_length : length at.block.packets ≡ length b.packets

module _ {S : Type 0} (cs : Callbacks S) where
  after_loop :
      (u : S) (b : Block) (outs ins : List Packet)
      → loaded b.packets b.write_adapter_request ≡ some outs
      → loaded b.packets b.write_mstcp_request ≡ some ins
      → (elim (write_adapter b) as (λ _. Option (Turn S)) [
        | none ↦ none
        | some q ↦ elim (write_mstcp q.1) [
          | none ↦ none
          | some t ↦ some (record { user = u; block = reset t.1; to_network = q.0; to_stack = t.0 })
        ]
      ])
        ≡ some (record {
          user = u;
          block = reset (sent_mstcp (sent_adapter b));
          to_network = outs;
          to_stack = ins;
        })
  unfolding sent_adapter
  after_loop u b outs ins o i =
      ap
        (λ x. elim x as (λ _. Option (Turn S)) [
          | none ↦ none
          | some q ↦ elim (write_mstcp q.1) [
            | none ↦ none
            | some t ↦
                some (record { user = u; block = reset t.1; to_network = q.0; to_stack = t.0 })
          ]
        ])
        (write_adapter_lem b outs o)
      ∙ ap
          (λ x. elim x as (λ _. Option (Turn S)) [
            | none ↦ none
            | some t ↦
                some (record { user = u; block = reset t.1; to_network = outs; to_stack = t.0 })
          ])
          (write_mstcp_lem (sent_adapter b) ins i)

  turn-Routed :
      (h : ℕ) (u : S) (b : Block) (r : Read)
      → Fits h reading b
      → length r.packets ≡ length b.packets
      → r.success ≤ length b.packets
      → Routed h u b (answers cs u h (take r.success r.packets)) (turn cs u b r)
  unfolding turn reset sent_adapter sent_mstcp
  turn-Routed h u b r f e le =
      let b0 : Block = filled b r.packets r.success in
      let f0 : Fits h processing b0 = filled-Fits r.packets r.success f e le in
      let q = loop cs r.success 0 u b0 (Ready-Loads (Fits-Ready f0)) (omega arith) f0.success in
      let outs =
        routed to_adapter
          (answers cs u b0.read_request.adapter_handle (take r.success r.packets)) in
      let ins =
        routed to_mstcp (answers cs u b0.read_request.adapter_handle (take r.success r.packets)) in
      let b1 : Block = q.block in
      subst (λ g. Routed h u b (answers cs u g (take r.success r.packets)) (turn cs u b r))
        f0.handle
        (record {
          at = record {
            user = final u (answers cs u b0.read_request.adapter_handle (take r.success r.packets));
            block = reset (sent_mstcp (sent_adapter b1));
            to_network = outs;
            to_stack = ins;
          };
          returns =
              ap
                (λ o. elim o as (λ _. Option (Turn S)) [
                  | none ↦ none
                  | some p ↦ elim (write_adapter p.1) [
                    | none ↦ none
                    | some q ↦ elim (write_mstcp q.1) [
                      | none ↦ none
                      | some t ↦ some (record {
                        user = p.0;
                        block = reset t.1;
                        to_network = q.0;
                        to_stack = t.0;
                      })
                    ]
                  ]
                ])
                q.returns
              ∙ after_loop _ b1 outs ins (Leads-follow q.loads.adapter_leads)
                  (Leads-follow q.loads.mstcp_leads);
          user = refl;
          network = refl;
          stack = refl;
          fits = record {
            handle = ap (λ t. t.adapter_handle) q.same_read ∙ f.handle;
            adapter_size = q.loads.adapter_size;
            mstcp_size = q.loads.mstcp_size;
            small = q.loads.small;
            success = omega arith;
            spent = λ z. refl;
            adapter_load = (
              [],
              loaded-empty b1.packets (sent_mstcp (sent_adapter b1)).write_adapter_request refl,
            );
            mstcp_load = (
              [],
              loaded-empty b1.packets (sent_mstcp (sent_adapter b1)).write_mstcp_request refl,
            );
            adapter_empty = λ z. refl;
            mstcp_empty = λ z. refl;
          };
          same_length = q.same_length ∙ e;
        })

  -- The rounds one after another.
  pub turns-Routed :
      (h : ℕ) (u : S) (b : Block) (rs : List Read)
      → Fits h reading b
      → Whole (length b.packets) rs
      → Routed h u b (answers cs u h (all_read rs)) (turns cs u b rs)
  unfolding turns all_read answers final routed Whole
  turns-Routed h u b [] f w = record {
    at = record { user = u; block = b; to_network = []; to_stack = [] };
    returns = refl;
    user = refl;
    network = refl;
    stack = refl;
    fits = f;
    same_length = refl;
  }
  turns-Routed h u b (r ∷ rs) f (e, le, w) =
      let t = turn-Routed h u b r f e le in
      let v =
        turns-Routed h t.at.user t.at.block rs t.fits
          (subst (λ n. Whole n rs) (sym t.same_length) w) in
      let X = answers cs u h (take r.success r.packets) in
      let Y = answers cs t.at.user h (all_read rs) in
      let both : answers cs u h (take r.success r.packets ++ all_read rs) ≡ X ++ Y =
        answers-append cs u h (take r.success r.packets) (all_read rs)
        ∙ ap (λ k. X ++ answers cs k h (all_read rs)) (sym t.user) in
      record {
        at = record v.at {
          to_network = t.at.to_network ++ v.at.to_network;
          to_stack = t.at.to_stack ++ v.at.to_stack;
        };
        returns =
            ap
              (λ o. elim o as (λ _. Option (Turn S)) [
                | none ↦ none
                | some t ↦ elim (turns cs t.user t.block rs) [
                  | none ↦ none
                  | some t' ↦ some (record t' {
                    to_network = t.to_network ++ t'.to_network;
                    to_stack = t.to_stack ++ t'.to_stack;
                  })
                ]
              ])
              t.returns
            ∙ ap
                (λ o. elim o as (λ _. Option (Turn S)) [
                  | none ↦ none
                  | some t' ↦ some (record t' {
                    to_network = t.at.to_network ++ t'.to_network;
                    to_stack = t.at.to_stack ++ t'.to_stack;
                  })
                ])
                v.returns;
        user =
            v.user
            ∙ ap (λ k. final k Y) t.user
            ∙ sym (final-append u X Y)
            ∙ ap (final u) (sym both);
        network =
            ap (λ k. k ++ v.at.to_network) t.network
            ∙ ap (λ k. routed to_adapter X ++ k) v.network
            ∙ sym (routed-append to_adapter X Y)
            ∙ ap (routed to_adapter) (sym both);
        stack =
            ap (λ k. k ++ v.at.to_stack) t.stack
            ∙ ap (λ k. routed to_mstcp X ++ k) v.stack
            ∙ sym (routed-append to_mstcp X Y)
            ∙ ap (routed to_mstcp) (sym both);
        fits = v.fits;
        same_length = v.same_length ∙ t.same_length;
      }
