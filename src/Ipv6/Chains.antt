-- ===== src/Ipv6/Chains.antt =====
-- The chains of extension headers, as find_transport_header follows them.
use ndisapi.Base.{
  ℕ, zero, suc, ◌+◌, ◌*◌, ◌/◌, ◌%◌, ◌≤◌, ◌<◌, ◌≡◌, ◌≢◌, refl, sym, ap, ◌∙◌, ◌⊎◌, inl, inr, arith,
  Bool, true, false, Option, none, some, ltb, ◌==◌, Bool-cases, length, if◌then◌else◌,
}
use mathlib.Core.Path.{subst}
use ndisapi.Checksum.{Bytes, load, ◌>>=◌}
use ndisapi.Checksum.Words.{byte, load_lem}
use ndisapi.Ipv6.{
  TransportHeader, is_skipped, fragment, walk, find_transport_header, ipproto_fragment,
}

-- An offset that a pointer into the packet, or just behind a last fragmentation header, can have.
Within : ℕ → Option ℕ → Type 0
Within size none = Unit
Within size (some i) = i ≤ size + 4

-- What a run returns, with its header within the packet.
pub Returns : ℕ → Option TransportHeader → Type 0
Returns size o = (r : TransportHeader) × (o ≡ some r) × Within size r.header

unfoldable pub fragment_value : Bytes → ℕ → TransportHeader
fragment_value b n =
    if byte b (n + 2) % 256 / 4 == 0
    then record { header = some (n + 8); next_proto = byte b n % 256 }
    else record { header = none; next_proto = byte b n % 256 }

pub fragment_lem : (b : Bytes) (n : ℕ) → n + 4 ≤ length b → fragment b n ≡ some (fragment_value b n)
unfolding fragment fragment_value
fragment_lem b n h = rw (load_lem b n (omega arith), load_lem b (n + 2) (omega arith)) refl

fragment-Returns :
    (b : Bytes) (size n : ℕ) → n + 4 ≤ size → size ≤ length b → Returns size (fragment b n)
unfolding Returns Within fragment_value
fragment-Returns b size n h le =
    (fragment_value b n, fragment_lem b n (omega arith), go (byte b (n + 2) % 256 / 4 == 0))
  where
    go :
        (t : Bool)
        → Within size
            (if◌then◌else◌ {A = TransportHeader} t
              (record { header = some (n + 8); next_proto = byte b n % 256 })
              (record { header = none; next_proto = byte b n % 256 })).header
    go true = omega arith
    go false = tt

pub if_true {ℓ} : {A : Type ℓ} {b : Bool} (x y : A) → b ≡ true → (if b then x else y) ≡ x
if_true x y e = ap (λ c. if c then x else y) e

if_false {ℓ} : {A : Type ℓ} {b : Bool} (x y : A) → b ≡ false → (if b then x else y) ≡ y
if_false x y e = ap (λ c. if c then x else y) e

inside : (size n : ℕ) → n + 4 ≤ size → ltb size (n + 4) ≡ false
inside size n h = ground arith

is_skipped-fragment : (p : ℕ) → is_skipped p ≡ true → (p == ipproto_fragment) ≡ false
unfolding is_skipped
is_skipped-fragment p s = ground arith

beyond : (size n : ℕ) → size < n + 4 → ltb size (n + 4) ≡ true
beyond size n h = ground arith

fragment_proto : (p : ℕ) → p ≡ ipproto_fragment → (p == ipproto_fragment) ≡ true
fragment_proto p e = ground arith

other_proto : (p : ℕ) → p ≢ ipproto_fragment → (p == ipproto_fragment) ≡ false
other_proto p e = ground arith

ltb→lt : (a b : ℕ) → ltb a b ≡ true → a < b
ltb→lt a b e = ground arith

not_ltb→le : (a b : ℕ) → ltb a b ≡ false → b ≤ a
not_ltb→le a b e = ground arith

proto-of_== : (p : ℕ) → (p == ipproto_fragment) ≡ true → p ≡ ipproto_fragment
proto-of_== p e = ground arith

proto-of_ne : (p : ℕ) → (p == ipproto_fragment) ≡ false → p ≢ ipproto_fragment
proto-of_ne p e = λ q. let z : false ≡ true = sym e ∙ fragment_proto p q in cc

module _ (fuel : ℕ) (b : Bytes) (size p n : ℕ) (h : n + 4 ≤ size) where
  -- One round: over a header that is skipped, at a fragmentation header, at any other.
  skip_lem :
      size ≤ length b
      → is_skipped p ≡ true
      → walk (suc fuel) b size p n
        ≡ walk fuel b size (byte b n % 256) (n + 8 + byte b (n + 1) % 256 * 8)
  unfolding walk
  skip_lem le s =
      if_false _ _ (inside size n h)
      ∙ if_false _ _ (is_skipped-fragment p s)
      ∙ if_true _ _ s
      ∙ ap
          (λ o. o >>= λ proto.
            load b (n + 1) >>= λ len. walk fuel b size (proto % 256) (n + 8 + len % 256 * 8))
          (load_lem b n (omega arith))
      ∙ ap (λ o. o >>= λ len. walk fuel b size (byte b n % 256) (n + 8 + len % 256 * 8))
          (load_lem b (n + 1) (omega arith))

  pub at_fragment : p ≡ ipproto_fragment → walk (suc fuel) b size p n ≡ fragment b n
  unfolding walk
  at_fragment e = if_false _ _ (inside size n h) ∙ if_true _ _ (fragment_proto p e)

  pub at_transport :
      is_skipped p ≡ false
      → p ≢ ipproto_fragment
      → walk (suc fuel) b size p n ≡ some (record { header = some n; next_proto = p })
  unfolding walk
  at_transport s e =
      if_false _ _ (inside size n h) ∙ if_false _ _ (other_proto p e) ∙ if_false _ _ s

outside_packet :
    (fuel : ℕ) (b : Bytes) (size p n : ℕ)
    → size < n + 4
    → walk (suc fuel) b size p n ≡ some (record { header = none; next_proto = p })
unfolding walk
outside_packet fuel b size p n h = if_true _ _ (beyond size n h)

walk-Returns :
    (fuel : ℕ) (b : Bytes) (size p n : ℕ)
    → size ≤ length b
    → 1 ≤ fuel
    → size < n + fuel
    → Returns size (walk fuel b size p n)
unfolding Returns Within
walk-Returns zero b size p n le f h = absurd (omega arith)
walk-Returns (suc fuel) b size p n le f h = elim (Bool-cases (ltb size (n + 4))) [
  | inl o ↦ (_, outside_packet fuel b size p n (ltb→lt size (n + 4) o), tt)
  | inr o ↦
      let i : n + 4 ≤ size = not_ltb→le size (n + 4) o in
      elim (Bool-cases (p == ipproto_fragment)) [
        | inl e ↦
            subst (Returns size) (sym (at_fragment fuel b size p n i (proto-of_== p e)))
              (fragment-Returns b size n i le)
        | inr e ↦ elim (Bool-cases (is_skipped p)) [
          | inl s ↦ subst (Returns size) (sym (skip_lem fuel b size p n i le s)) (
              walk-Returns fuel b size (byte b n % 256) (n + 8 + byte b (n + 1) % 256 * 8) le
                (omega arith) (omega arith))
          | inr s ↦ (_, at_transport fuel b size p n i s (proto-of_ne p e), omega arith)
        ]
      ]
]

pub ipv6_start :
    (b : Bytes) (size : ℕ)
    → 40 ≤ length b
    → find_transport_header b size ≡ (
        if byte b 0 / 16 % 16 == 6
        then walk (size + 1) b size (byte b 6 % 256) 40
        else some (record { header = none; next_proto = 0 }))
unfolding find_transport_header
ipv6_start b size h =
    ap
      (λ o. o >>= λ version.
        if version / 16 % 16 == 6
        then (load b 6 >>= λ proto. walk (size + 1) b size (proto % 256) 40)
        else some (record { header = none; next_proto = 0 }))
      (load_lem b 0 (omega arith))
    ∙ ap
        (λ o.
          if byte b 0 / 16 % 16 == 6
          then (o >>= λ proto. walk (size + 1) b size (proto % 256) 40)
          else some (record { header = none; next_proto = 0 }))
        (load_lem b 6 (omega arith))

-- For a packet of at least a header's length, of any content, whose size is not above that of the
-- array, find_transport_header stays inside the array and its loop ends; a header that it returns
-- starts within the packet, or at most four bytes behind its end.
pub find_transport_header-Returns :
    (b : Bytes) (size : ℕ)
    → 40 ≤ length b
    → size ≤ length b
    → Returns size (find_transport_header b size)
unfolding Returns Within
find_transport_header-Returns b size h le =
    subst (Returns size) (sym (ipv6_start b size h)) (go (byte b 0 / 16 % 16 == 6))
  where
    go :
        (t : Bool)
        → Returns size (
            if t
            then walk (size + 1) b size (byte b 6 % 256) 40
            else some (record { header = none; next_proto = 0 }))
    go true = walk-Returns (size + 1) b size (byte b 6 % 256) 40 le (omega arith) (omega arith)
    go false = (_, refl, tt)

-- The extension headers that RFC 8200 has between the IPv6 header and the transport header, the
-- fragmentation header left out: hop-by-hop options, routing, destination options.
abbrev pub IsExtension : ℕ → Type 0
IsExtension p = (p ≡ 0) ⊎ ((p ≡ 43) ⊎ (p ≡ 60))

extension-skipped : (p : ℕ) → IsExtension p → is_skipped p ≡ true
unfolding is_skipped
extension-skipped p (inl e) = ground arith
extension-skipped p (inr (inl e)) = ground arith
extension-skipped p (inr (inr e)) = ground arith

pub other-not_skipped : (p : ℕ) → p ≢ 0 → p ≢ 43 → p ≢ 60 → is_skipped p ≡ false
unfolding is_skipped
other-not_skipped p a b c = ground arith

-- From a header to another, over extension headers that start within the packet. The length of each
-- is its second byte, in units of eight bytes that do not count the first eight.
pub data Chain (b : Bytes) (size p' n' : ℕ) : ℕ → ℕ → Type 0 where
  arrived : Chain b size p' n' p' n'
  skipped :
      (p n : ℕ)
      → IsExtension p
      → n + 4 ≤ size
      → Chain b size p' n' (byte b n % 256) (n + 8 + byte b (n + 1) % 256 * 8)
      → Chain b size p' n' p n

-- The rounds over a chain leave fuel for its last header.
pub walk-Chain :
    (fuel : ℕ) (b : Bytes) (size p n : ℕ) {p' n' : ℕ}
    → size ≤ length b
    → 1 ≤ fuel
    → size < n + fuel
    → Chain b size p' n' p n
    → (fuel' : ℕ) × (walk fuel b size p n ≡ walk (suc fuel') b size p' n')
walk-Chain zero b size p n le f h c = absurd (omega arith)
walk-Chain (suc fuel) b size p n le f h arrived = (fuel, refl)
walk-Chain (suc fuel) b size p n le f h (skipped _ _ s i c) =
    let (k, e) = walk-Chain fuel b size _ _ le (omega arith) (omega arith) c in
    (k, skip_lem fuel b size p n i le (extension-skipped p s) ∙ e)
