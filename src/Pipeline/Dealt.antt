-- ===== src/Pipeline/Dealt.antt =====
-- Where the packets of a block are to go, said without the code's tests: which callback sees a packet,
-- what its answer does with the packet, and so on for a sequence of packets.
use ndisapi.Base.{
  ℕ, ◌≡◌, ◌≢◌, refl, arith, false, true, inl, inr, Bool-cases, List, [], ◌∷◌, ◌++◌, Option, none,
  some, ◌==◌,
}
use ndisapi.Pipeline.{
  Packet, Block, PacketAction, pass, drop, revert, Answer, Callback, Callbacks, to_adapter,
  to_mstcp, target, call_filter, ask_filter, process_block, loaded,
}
use ndisapi.Pipeline.Loads.{pick}
use ndisapi.Pipeline.Rounds.{answers, final, routed}
use ndisapi.Pipeline.Distribute.{Ready, arrived, process_block-Distributed}

-- PACKET_FLAG_ON_SEND and PACKET_FLAG_ON_RECEIVE
abbrev pub IsOutgoing : Packet → Type 0
IsOutgoing p = p.device_flags ≡ 1

abbrev pub IsIncoming : Packet → Type 0
IsIncoming p = p.device_flags ≡ 2

-- The outgoing callback answers for the packets that the machine sends, the incoming callback for all
-- others; where it is null the packet passes unchanged.
pub data Asked {S : Type 0} (cs : Callbacks S) (u : S) (h : ℕ) (p : Packet) (a : Answer S)
    : Type 0 where
  by_outgoing :
      (f : Callback S) → IsOutgoing p → cs.outgoing ≡ some f → a ≡ f u h p → Asked cs u h p a
  without_outgoing :
      IsOutgoing p
      → cs.outgoing ≡ none
      → a ≡ record { action = pass; packet = p; user = u }
      → Asked cs u h p a
  by_incoming :
      (f : Callback S) → ¬ IsOutgoing p → cs.incoming ≡ some f → a ≡ f u h p → Asked cs u h p a
  without_incoming :
      ¬ IsOutgoing p
      → cs.incoming ≡ none
      → a ≡ record { action = pass; packet = p; user = u }
      → Asked cs u h p a

-- What goes to the network and what goes to the stack: a packet that passes goes on in its direction,
-- a reverted one goes back, a dropped one nowhere.
pub data Sent {S : Type 0} (a : Answer S) (outs ins : List Packet) : Type 0 where
  passed_out :
      a.action ≡ pass → IsOutgoing a.packet → outs ≡ a.packet ∷ [] → ins ≡ [] → Sent a outs ins
  passed_in :
      a.action ≡ pass → ¬ IsOutgoing a.packet → outs ≡ [] → ins ≡ a.packet ∷ [] → Sent a outs ins
  dropped : a.action ≡ drop → outs ≡ [] → ins ≡ [] → Sent a outs ins
  reverted_out :
      a.action ≡ revert → IsIncoming a.packet → outs ≡ a.packet ∷ [] → ins ≡ [] → Sent a outs ins
  reverted_in :
      a.action ≡ revert → ¬ IsIncoming a.packet → outs ≡ [] → ins ≡ a.packet ∷ [] → Sent a outs ins

-- From a state of the callbacks, over the packets in their order, to a state, with what goes to the
-- network and what goes to the stack.
pub data Dealt {S : Type 0} (cs : Callbacks S) (h : ℕ)
    : S → List Packet → S → List Packet → List Packet → Type 0 where
  none_left : {u : S} → Dealt cs h u [] u [] []
  next :
      {u u' : S} {p : Packet} {ps outs ins outs' ins' : List Packet} (a : Answer S)
      → Asked cs u h p a
      → Sent a outs ins
      → Dealt cs h a.user ps u' outs' ins'
      → Dealt cs h u (p ∷ ps) u' (outs ++ outs') (ins ++ ins')

equal : (m n : ℕ) → (m == n) ≡ true → m ≡ n
equal m n e = ground arith

unequal : (m n : ℕ) → (m == n) ≡ false → m ≢ n
unequal m n e = ground arith

module _ {S : Type 0} where
  outgoing-Asked :
      (cs : Callbacks S) (u : S) (h : ℕ) (p : Packet) (o : Option (Callback S))
      → cs.outgoing ≡ o
      → IsOutgoing p
      → Asked cs u h p (call_filter o u h p)
  unfolding call_filter
  outgoing-Asked cs u h p none e f = without_outgoing f e refl
  outgoing-Asked cs u h p (some g) e f = by_outgoing g f e refl

  incoming-Asked :
      (cs : Callbacks S) (u : S) (h : ℕ) (p : Packet) (o : Option (Callback S))
      → cs.incoming ≡ o
      → ¬ IsOutgoing p
      → Asked cs u h p (call_filter o u h p)
  unfolding call_filter
  incoming-Asked cs u h p none e f = without_incoming f e refl
  incoming-Asked cs u h p (some g) e f = by_incoming g f e refl

  ask_filter-Asked :
      (cs : Callbacks S) (u : S) (h : ℕ) (p : Packet) → Asked cs u h p (ask_filter cs u h p)
  unfolding ask_filter
  ask_filter-Asked cs u h p = elim (Bool-cases (p.device_flags == 1)) [
    | inl e ↦ rw e (outgoing-Asked cs u h p cs.outgoing refl (equal p.device_flags 1 e))
    | inr e ↦ rw e (incoming-Asked cs u h p cs.incoming refl (unequal p.device_flags 1 e))
  ]

  target-Sent :
      (a : Answer S) (c : PacketAction)
      → a.action ≡ c
      → Sent a
          (pick to_adapter (target c a.packet.device_flags) a.packet)
          (pick to_mstcp (target c a.packet.device_flags) a.packet)
  unfolding target pick
  target-Sent a pass e = elim (Bool-cases (a.packet.device_flags == 1)) [
    | inl f ↦ rw f (passed_out e (equal a.packet.device_flags 1 f) refl refl)
    | inr f ↦ rw f (passed_in e (unequal a.packet.device_flags 1 f) refl refl)
  ]
  target-Sent a drop e = dropped e refl refl
  target-Sent a revert e = elim (Bool-cases (a.packet.device_flags == 2)) [
    | inl f ↦ rw f (reverted_out e (equal a.packet.device_flags 2 f) refl refl)
    | inr f ↦ rw f (reverted_in e (unequal a.packet.device_flags 2 f) refl refl)
  ]

  pub answers-Dealt :
      (cs : Callbacks S) (u : S) (h : ℕ) (ps : List Packet)
      → Dealt cs h u ps
          (final u (answers cs u h ps))
          (routed to_adapter (answers cs u h ps))
          (routed to_mstcp (answers cs u h ps))
  unfolding answers final routed
  answers-Dealt cs u h [] = none_left
  answers-Dealt cs u h (p ∷ ps) =
      let a : Answer S = ask_filter cs u h p in
      next a (ask_filter-Asked cs u h p) (target-Sent a a.action refl)
        (answers-Dealt cs a.user h ps)

  -- With a block that is ready, whatever the callbacks do, the processing thread stays inside its
  -- arrays and shows each packet that was read, in order, to the callback for its direction (a null
  -- callback lets it pass); afterwards the request for the adapter names exactly the packets that
  -- pass on their way out or are reverted on their way in, the request for the stack exactly those
  -- that pass on their way in or are reverted on their way out, both in the order of the read and as
  -- the callback left them (the flags that say the way, too), and the read request counts no packet.
  pub process_block-Dealt :
      (cs : Callbacks S) (u : S) (b : Block)
      → Ready b
      → (u' : S) × (b' : Block) × (outs : List Packet) × (ins : List Packet) × (process_block cs u b
          ≡ some (u', b'))
        × Dealt cs b.read_request.adapter_handle u (arrived b) u' outs ins
        × (loaded b'.packets b'.write_adapter_request ≡ some outs)
        × (loaded b'.packets b'.write_mstcp_request ≡ some ins)
        × (b'.read_request.packets_success ≡ 0)
  process_block-Dealt cs u b r =
      let (b', ran, d) = process_block-Distributed cs u b r in
      (
        _,
        b',
        _,
        _,
        ran,
        answers-Dealt cs u b.read_request.adapter_handle (arrived b),
        d.adapter_loaded,
        d.mstcp_loaded,
        d.read_reset,
      )
