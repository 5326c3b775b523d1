-- ===== src/Pipeline/Simple/Turns.antt =====
-- Where the rounds of simple_packet_filter send the packets.
use ndisapi.Base.{ℕ, ◌≡◌, sym, List, some, length}
use mathlib.Core.Path.{subst}
use ndisapi.Pipeline.{Block, Callbacks, Answer, to_adapter}
use ndisapi.Pipeline.Threads.{reading}
use ndisapi.Pipeline.Rounds.{answers, final, routed}
use ndisapi.Pipeline.Dealt.{Dealt, answers-Dealt}
use ndisapi.Pipeline.Sound.{Fits}
use ndisapi.Pipeline.Simple.{Read, Turn, turns}
use ndisapi.Pipeline.Simple.Rounds.{Whole, all_read, turns-Routed}

module _ {S : Type 0} (cs : Callbacks S) where
  -- For a block that fits and any reads that put whole buffers into it and count packets of it, the
  -- thread stays inside its arrays. Over all the
  -- rounds each packet that was read is shown once and in order to the callback for its direction (a
  -- null callback lets it pass). The packets handed to SendPacketsToAdapter are exactly those that pass
  -- on their way out or are reverted on their way in, those handed to SendPacketsToMstcp exactly those
  -- that pass on their way in or are reverted on their way out, in the order of the reads and as the
  -- callback left them. The block has as many packets as before and fits the next read.
  pub turns-Dealt :
      (h : ℕ) (u : S) (b : Block) (rs : List Read)
      → Fits h reading b
      → Whole (length b.packets) rs
      → (t : Turn S) × (turns cs u b rs ≡ some t)
        × Dealt cs h u (all_read rs) t.user t.to_network t.to_stack
        × Fits h reading t.block
        × (length t.block.packets ≡ length b.packets)
  turns-Dealt h u b rs f w =
      let r = turns-Routed cs h u b rs f w in
      let xs : List (Answer S) = answers cs u h (all_read rs) in
      (
        r.at,
        r.returns,
        subst (λ k. Dealt cs h u (all_read rs) k r.at.to_network r.at.to_stack) (sym r.user)
            (subst (λ k. Dealt cs h u (all_read rs) (final u xs) k r.at.to_stack) (sym r.network)
              (subst (λ k. Dealt cs h u (all_read rs) (final u xs) (routed to_adapter xs) k)
                (sym r.stack) (answers-Dealt cs u h (all_read rs)))),
        r.fits,
        r.same_length,
      )
