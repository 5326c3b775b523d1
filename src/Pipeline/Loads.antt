-- ===== src/Pipeline/Loads.antt =====
-- What the write requests of a block name while the loop of packet_process_thread runs.
use ndisapi.Base.{
  append-nil, ℕ, zero, suc, ◌^◌, ◌≤◌, ◌<◌, ◌≡◌, refl, sym, ap, ◌∙◌, arith, List, [], ◌∷◌, ◌++◌,
  Option, none, some, length, get_elem?, set, length-set,
}
use mathlib.Core.Path.{subst}
use ndisapi.Pipeline.{
  Packet, Request, Block, Target, to_adapter, to_mstcp, nowhere, push_buffer, put_packet, follow,
}

unfoldable pub pick : Target → Target → Packet → List Packet
pick to_adapter to_adapter p = p ∷ []
pick to_mstcp to_mstcp p = p ∷ []
pick t t' p = []

-- The first `n` Buffers lead to packets at places before `i`.
pub data Leads (ps : List Packet) (i : ℕ) : ℕ → List (Option ℕ) → List Packet → Type 0 where
  here : {bs : List (Option ℕ)} → Leads ps i 0 bs []
  next :
      {n k : ℕ} {bs : List (Option ℕ)} {q : Packet} {qs : List Packet}
      → k < i
      → get_elem? ps k ≡ some q
      → Leads ps i n bs qs
      → Leads ps i (suc n) (some k ∷ bs) (q ∷ qs)

pub Leads-follow :
    {ps : List Packet} {i n : ℕ} {bs : List (Option ℕ)} {qs : List Packet}
    → Leads ps i n bs qs
    → follow ps n bs ≡ some qs
unfolding follow
Leads-follow here = refl
Leads-follow {ps} (next {n} {bs = bs} {q} lt e l) =
    ap
      (λ o. elim o as (λ _. Option (List Packet)) [
        | none ↦ none
        | some p ↦ elim (follow ps n bs) [ none ↦ none | some qs ↦ some (p ∷ qs) ]
      ])
      e
    ∙ ap (λ o. elim o as (λ _. Option (List Packet)) [ none ↦ none | some qs ↦ some (q ∷ qs) ])
        (Leads-follow l)

get_elem?-set_ne :
    (ps : List Packet) (i k : ℕ) (p : Packet) → k < i → get_elem? (set ps i p) k ≡ get_elem? ps k
get_elem?-set_ne [] i k p h = refl
get_elem?-set_ne (x ∷ ps) zero k p h = absurd (omega arith)
get_elem?-set_ne (x ∷ ps) (suc i) zero p h = refl
get_elem?-set_ne (x ∷ ps) (suc i) (suc k) p h = get_elem?-set_ne ps i k p (omega arith)

get_elem?-set_self :
    (ps : List Packet) (i : ℕ) (p : Packet) → i < length ps → get_elem? (set ps i p) i ≡ some p
get_elem?-set_self [] i p h = absurd (omega arith)
get_elem?-set_self (x ∷ ps) zero p h = refl
get_elem?-set_self (x ∷ ps) (suc i) p h = get_elem?-set_self ps i p (omega arith)

Leads-set :
    {ps : List Packet} {i n : ℕ} {bs : List (Option ℕ)} {qs : List Packet} (p : Packet)
    → Leads ps i n bs qs
    → Leads (set ps i p) (suc i) n bs qs
Leads-set p here = here
Leads-set {ps} {i} p (next {k = k} lt e l) =
    next (omega arith) (get_elem?-set_ne ps i k p lt ∙ e) (Leads-set p l)

Leads-push :
    {ps : List Packet} {i n : ℕ} {bs : List (Option ℕ)} {qs : List Packet} (k : ℕ) (p : Packet)
    → n < length bs
    → k < i
    → get_elem? ps k ≡ some p
    → Leads ps i n bs qs
    → Leads ps i (suc n) (set bs n (some k)) (qs ++ (p ∷ []))
Leads-push {bs = []} k p h lt e here = absurd (omega arith)
Leads-push {bs = b ∷ bs} k p h lt e here = next lt e here
Leads-push k p h lt e (next lt' e' l) = next lt' e' (Leads-push k p (omega arith) lt e l)

-- The block when the loop has come to the place `i`.
pub record Loads (b : Block) (i : ℕ) (outs ins : List Packet) : Type 0 where
  pub adapter_leads :
      Leads b.packets i b.write_adapter_request.packets_number b.write_adapter_request.buffers outs
  pub mstcp_leads :
      Leads b.packets i b.write_mstcp_request.packets_number b.write_mstcp_request.buffers ins
  pub adapter_number : b.write_adapter_request.packets_number ≤ i
  pub mstcp_number : b.write_mstcp_request.packets_number ≤ i
  pub adapter_size : length b.write_adapter_request.buffers ≡ length b.packets
  pub mstcp_size : length b.write_mstcp_request.buffers ≡ length b.packets
  pub small : length b.packets < 2 ^ 32

pub push_buffer_lem :
    (i : ℕ) (r : Request)
    → r.packets_number < length r.buffers
    → length r.buffers < 2 ^ 32
    → push_buffer i r
      ≡ some (record r {
        packets_number = suc r.packets_number;
        buffers = set r.buffers r.packets_number (some i);
      })
unfolding push_buffer
push_buffer_lem i r h small = ground arith

-- What `put_packet` leaves, for each target.
pub placed : Target → ℕ → Block → Block
placed nowhere i b = b
placed to_adapter i b = record b {
  write_adapter_request = record b.write_adapter_request {
    packets_number = suc b.write_adapter_request.packets_number;
    buffers = set b.write_adapter_request.buffers b.write_adapter_request.packets_number (some i);
  };
}
placed to_mstcp i b = record b {
  write_mstcp_request = record b.write_mstcp_request {
    packets_number = suc b.write_mstcp_request.packets_number;
    buffers = set b.write_mstcp_request.buffers b.write_mstcp_request.packets_number (some i);
  };
}

module _ {b : Block} {i : ℕ} {outs ins : List Packet} (l : Loads b i outs ins) (p : Packet) where
  unfoldable pub after : Block
  after = record b { packets = set b.packets i p }

  pub place_lem :
      (t : Target) → i < length b.packets → put_packet t i after ≡ some (placed t i after)
  unfolding put_packet placed after
  place_lem nowhere h = refl
  place_lem to_adapter h =
      ap
        (λ o. elim o as (λ _. Option Block) [
          | none ↦ none
          | some r ↦ some (record after { write_adapter_request = r })
        ])
        (push_buffer_lem i b.write_adapter_request (omega (arith, l.adapter_number, l.adapter_size))
          (omega (arith, l.small, l.adapter_size)))
  place_lem to_mstcp h =
      ap
        (λ o. elim o as (λ _. Option Block) [
          | none ↦ none
          | some r ↦ some (record after { write_mstcp_request = r })
        ])
        (push_buffer_lem i b.write_mstcp_request (omega (arith, l.mstcp_number, l.mstcp_size))
          (omega (arith, l.small, l.mstcp_size)))

  still :
      {n : ℕ} {bs : List (Option ℕ)} {qs : List Packet}
      → Leads b.packets i n bs qs
      → Leads (set b.packets i p) (suc i) n bs (qs ++ [])
  still {n} {bs} {qs} h =
      subst (λ t. Leads (set b.packets i p) (suc i) n bs t) (sym (append-nil qs)) (Leads-set p h)

  grown :
      {n : ℕ} {bs : List (Option ℕ)} {qs : List Packet}
      → i < length b.packets
      → n < length bs
      → Leads b.packets i n bs qs
      → Leads (set b.packets i p) (suc i) (suc n) (set bs n (some i)) (qs ++ (p ∷ []))
  grown h lt l' =
      Leads-push i p lt (omega arith) (get_elem?-set_self b.packets i p h) (Leads-set p l')

  pub placed-Loads :
      (t : Target)
      → i < length b.packets
      → Loads (placed t i after) (suc i) (outs ++ pick to_adapter t p) (ins ++ pick to_mstcp t p)
  unfolding placed after pick
  placed-Loads nowhere h = record {
    adapter_leads = still l.adapter_leads;
    mstcp_leads = still l.mstcp_leads;
    adapter_number = omega (arith, l.adapter_number);
    mstcp_number = omega (arith, l.mstcp_number);
    adapter_size = l.adapter_size ∙ sym (length-set b.packets i p);
    mstcp_size = l.mstcp_size ∙ sym (length-set b.packets i p);
    small = omega (arith, l.small, length-set b.packets i p);
  }
  placed-Loads to_adapter h = record {
    adapter_leads = grown h (omega (arith, l.adapter_number, l.adapter_size)) l.adapter_leads;
    mstcp_leads = still l.mstcp_leads;
    adapter_number = omega (arith, l.adapter_number);
    mstcp_number = omega (arith, l.mstcp_number);
    adapter_size =
        length-set b.write_adapter_request.buffers b.write_adapter_request.packets_number (some i)
        ∙ l.adapter_size
        ∙ sym (length-set b.packets i p);
    mstcp_size = l.mstcp_size ∙ sym (length-set b.packets i p);
    small = omega (arith, l.small, length-set b.packets i p);
  }
  placed-Loads to_mstcp h = record {
    adapter_leads = still l.adapter_leads;
    mstcp_leads = grown h (omega (arith, l.mstcp_number, l.mstcp_size)) l.mstcp_leads;
    adapter_number = omega (arith, l.adapter_number);
    mstcp_number = omega (arith, l.mstcp_number);
    adapter_size = l.adapter_size ∙ sym (length-set b.packets i p);
    mstcp_size =
        length-set b.write_mstcp_request.buffers b.write_mstcp_request.packets_number (some i)
        ∙ l.mstcp_size
        ∙ sym (length-set b.packets i p);
    small = omega (arith, l.small, length-set b.packets i p);
  }

pub placed-packets : (t : Target) (i : ℕ) (b : Block) → (placed t i b).packets ≡ b.packets
unfolding placed
placed-packets nowhere i b = refl
placed-packets to_adapter i b = refl
placed-packets to_mstcp i b = refl

pub placed-read_request :
    (t : Target) (i : ℕ) (b : Block) → (placed t i b).read_request ≡ b.read_request
unfolding placed
placed-read_request nowhere i b = refl
placed-read_request to_adapter i b = refl
placed-read_request to_mstcp i b = refl
