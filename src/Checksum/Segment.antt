-- ===== src/Checksum/Segment.antt =====
-- RecalculateTCPChecksum, RecalculateUDPChecksum and RecalculateICMPChecksum, and what a receiver of
-- the message checks. The message starts after the IP header and is `len` bytes long; an odd one is
-- summed with a zero byte behind it.
use ndisapi.Base.{
  ℕ, ◌+◌, ◌-◌, ◌*◌, ◌/◌, ◌%◌, ◌^◌, ◌≤◌, ◌<◌, ◌≡◌, ◌≢◌, refl, ap, ◌∙◌, some, arith, length, set,
  length-set, get_or-set_ne, get_or-set_self, false, ◌==◌, if◌then◌else◌, Bool-cases, inl, inr,
}
use mathlib.Core.Path.{subst}
use ndisapi.Checksum.{
  Bytes, ip_header, payload_length, pad, add_pseudo_header, complement, recalculate_with_pseudo,
  recalculate_icmp_message, store16, sum_words, finish,
}
use ndisapi.Checksum.Words.{
  byte, word, put, words, octets, octets-words, store_lem, word16_lem, store16_lem, length-put,
  byte-put_ne, word-put_self, words-le, sum_words_zero,
}
use ndisapi.Checksum.Carries.{residue, complement-lt}
use ndisapi.Checksum.Header.{finish_lem, ip_hl_lem, put-put_verifies}

abbrev pub header_length : Bytes → ℕ
header_length b = byte b ip_header % 16 * 4

-- The total length of the IP header, less that of the header.
abbrev pub message_length : Bytes → ℕ
message_length b = word b (ip_header + 2) - header_length b

abbrev pub message_start : Bytes → ℕ
message_start b = ip_header + header_length b

abbrev pub message_words : Bytes → ℕ
message_words b = (message_length b + 1) / 2

abbrev pub pseudo_header : ℕ → Bytes → ℕ
pseudo_header proto b =
    word b (ip_header + 12)
    + word b (ip_header + 14)
    + word b (ip_header + 16)
    + word b (ip_header + 18)
    + proto
    + message_length b

-- The headers are complete: the field at byte `field` of the message lies inside it, and the packet
-- and the pad byte behind it lie inside the array.
pub record IsComplete (field : ℕ) (b : Bytes) : Type 0 where
  pub header : 5 ≤ byte b ip_header % 16
  pub has_field : header_length b + field + 2 ≤ word b (ip_header + 2)
  pub inside : ip_header + word b (ip_header + 2) < length b

-- The byte array once the zero byte behind an odd message is written.
unfoldable pub padded : Bytes → Bytes
padded b =
    if message_length b / 2 * 2 == message_length b
    then b
    else set b (message_start b + message_length b) 0

module _ (field : ℕ) (b : Bytes) (c : IsComplete field b) where
  len_lem : payload_length b (byte b ip_header % 16) ≡ some (message_length b)
  unfolding payload_length
  len_lem = rw (word16_lem b 16 (omega arith)) (ap some (omega arith))

  length-padded : length (padded b) ≡ length b
  unfolding padded
  length-padded = ground (arith, length-set b (message_start b + message_length b) 0)

  byte-padded : (j : ℕ) → j ≢ ip_header + word b (ip_header + 2) → byte (padded b) j ≡ byte b j
  unfolding padded
  byte-padded j ne =
      ground (arith, get_or-set_ne b (message_start b + message_length b) j 0 0 (omega arith))

  pad_lem : pad b (byte b ip_header % 16) (message_length b) ≡ some (padded b, message_length b % 2)
  unfolding pad padded
  pad_lem =
      let place : (message_length b + byte b ip_header % 16 * 4 + ip_header) % 2 ^ 32
          ≡ message_start b + message_length b =
        omega arith in
      elim (Bool-cases (message_length b / 2 * 2 == message_length b)) [
        | inl even ↦ rw even (ground arith)
        | inr odd ↦ rw odd (
            rw (place, store_lem b (message_start b + message_length b) 0 (omega arith))
              (ground arith))
      ]

-- The byte array with the padding written and the field cleared.
unfoldable pub cleared : ℕ → Bytes → Bytes
cleared field b = put (padded b) (message_start b + field) 0

unfoldable pub message_sum : ℕ → Bytes → ℕ
unfolding cleared padded
message_sum field b = words (cleared field b) (message_start b) (message_words b)

-- The array that the routines leave, when `extra` is what is summed beside the message.
pub result : ℕ → ℕ → Bytes → Bytes
unfolding cleared message_sum
result field extra b =
    put (cleared field b) (message_start b + field)
      (complement (residue (message_sum field b + extra)))

-- Outside the field and the pad byte nothing changes.
pub record SameOutside (field : ℕ) (b b' : Bytes) : Type 0 where
  pub same_length : length b' ≡ length b
  pub same_bytes :
      (j : ℕ)
      → j ≢ message_start b + field
      → j ≢ message_start b + field + 1
      → j ≢ ip_header + word b (ip_header + 2)
      → byte b' j ≡ byte b j

-- A receiver adds the message, its checksum included, to `extra`, and gets 0xFFFF.
abbrev pub MessageVerifies : ℕ → Bytes → Type 0
MessageVerifies extra b = residue (octets b (message_start b) (message_length b) + extra) ≡ 65535

module _ (k : ℕ) (b : Bytes) (c : IsComplete (2 * k) b) where
  length-cleared : length (cleared (2 * k) b) ≡ length b
  unfolding cleared
  length-cleared = length-put (padded b) (message_start b + 2 * k) 0 ∙ length-padded (2 * k) b c

  byte-cleared : (j : ℕ) → j < message_start b → byte (cleared (2 * k) b) j ≡ byte b j
  unfolding cleared
  byte-cleared j h =
      byte-put_ne (padded b) (message_start b + 2 * k) j 0 (omega arith) (omega arith)
      ∙ byte-padded (2 * k) b c j (omega arith)

  word-cleared : (j : ℕ) → j + 1 < message_start b → word (cleared (2 * k) b) j ≡ word b j
  word-cleared j h = omega (arith, byte-cleared j (omega arith), byte-cleared (j + 1) h)

  message_sum-le : message_sum (2 * k) b ≤ 32768 * 65535
  unfolding message_sum
  message_sum-le = omega (arith, words-le (cleared (2 * k) b) (message_start b) (message_words b))

  pub SameOutside-result : (extra : ℕ) → SameOutside (2 * k) b (result (2 * k) extra b)
  unfolding result cleared
  SameOutside-result extra = record {
    same_length = length-put (cleared (2 * k) b) (message_start b + 2 * k) _ ∙ length-cleared;
    same_bytes = λ j p q r.
        byte-put_ne (cleared (2 * k) b) (message_start b + 2 * k) j _ p q
        ∙ byte-put_ne (padded b) (message_start b + 2 * k) j 0 p q
        ∙ byte-padded (2 * k) b c j r;
  }

  byte-result : (extra j : ℕ) → j < message_start b → byte (result (2 * k) extra b) j ≡ byte b j
  byte-result extra j h =
      (SameOutside-result extra).same_bytes j (omega arith) (omega arith) (omega arith)

  word-result : (extra j : ℕ) → j + 1 < message_start b → word (result (2 * k) extra b) j ≡ word b j
  word-result extra j h =
      omega (arith, byte-result extra j (omega arith), byte-result extra (j + 1) h)

  pub pseudo_header-result :
      (proto extra : ℕ) → pseudo_header proto (result (2 * k) extra b) ≡ pseudo_header proto b
  pseudo_header-result proto extra = omega (
    arith,
    byte-result extra 14 (omega arith),
    word-result extra 16 (omega arith),
    word-result extra 26 (omega arith),
    word-result extra 28 (omega arith),
    word-result extra 30 (omega arith),
    word-result extra 32 (omega arith),
  )

  -- The byte behind an odd message.
  byte-result_pad :
      (extra : ℕ)
      → message_length b % 2 ≡ 1
      → byte (result (2 * k) extra b) (message_start b + message_length b) ≡ 0
  unfolding result cleared padded
  byte-result_pad extra odd =
      let e : (message_length b / 2 * 2 == message_length b) ≡ false = ground arith in
      byte-put_ne (cleared (2 * k) b) (message_start b + 2 * k) _ _ (omega arith) (omega arith)
      ∙ byte-put_ne (padded b) (message_start b + 2 * k) _ 0 (omega arith) (omega arith)
      ∙ rw e (get_or-set_self b (message_start b + message_length b) 0 0 (omega arith))

  words_verify :
      (extra : ℕ)
      → extra < 2 ^ 30
      → residue (words (result (2 * k) extra b) (message_start b) (message_words b) + extra) ≡ 65535
  unfolding result message_sum cleared
  words_verify extra h =
      (put-put_verifies (padded b) (message_start b) k (message_words b) extra
        (message_sum (2 * k) b + extra) (omega arith) (omega (arith, length-padded (2 * k) b c))
        (omega (arith, message_sum-le)) refl)

  pub MessageVerifies-result :
      (extra : ℕ) → extra < 2 ^ 30 → MessageVerifies extra (result (2 * k) extra b)
  MessageVerifies-result extra h =
      rw (byte-result extra 14 (omega arith), word-result extra 16 (omega arith))
        (rw
          (octets-words (result (2 * k) extra b) (message_start b) (message_length b)
            (byte-result_pad extra))
          (words_verify extra h))

  rounds : (message_length b + message_length b % 2) % 2 ^ 32 / 2 ≡ message_words b
  rounds = omega arith

  store_cleared : store16 (padded b) (message_start b + 2 * k) 0 ≡ some (cleared (2 * k) b)
  unfolding cleared
  store_cleared =
      store16_lem (padded b) (message_start b + 2 * k) 0 (omega (arith, length-padded (2 * k) b c))

  sum_cleared :
      sum_words (cleared (2 * k) b) (message_start b) (message_words b) 0
      ≡ some (message_sum (2 * k) b)
  unfolding message_sum
  sum_cleared =
      sum_words_zero (cleared (2 * k) b) (message_start b) (message_words b)
        (omega (arith, length-cleared)) (omega arith)

  finish-cleared :
      (extra : ℕ)
      → extra < 2 ^ 30
      → finish (cleared (2 * k) b) (message_start b + 2 * k) (message_sum (2 * k) b + extra)
        ≡ some (result (2 * k) extra b)
  unfolding result
  finish-cleared extra h =
      finish_lem (cleared (2 * k) b) (message_start b + 2 * k) (message_sum (2 * k) b + extra)
        (omega (arith, length-cleared)) (omega (arith, message_sum-le))

  add_pseudo_header_lem :
      (proto : ℕ)
      → proto < 256
      → add_pseudo_header (cleared (2 * k) b) proto (message_length b) (message_sum (2 * k) b)
        ≡ some (message_sum (2 * k) b + pseudo_header proto b)
  unfolding add_pseudo_header
  add_pseudo_header_lem proto h =
      rw
        (
          word16_lem (cleared (2 * k) b) 26 (omega (arith, length-cleared)),
          word16_lem (cleared (2 * k) b) 28 (omega (arith, length-cleared)),
          word16_lem (cleared (2 * k) b) 30 (omega (arith, length-cleared)),
          word16_lem (cleared (2 * k) b) 32 (omega (arith, length-cleared)),
        )
        (ap some (
          omega (
            arith,
            message_sum-le,
            word-cleared 26 (omega arith),
            word-cleared 28 (omega arith),
            word-cleared 30 (omega arith),
            word-cleared 32 (omega arith),
          )))

  pub recalculate_with_pseudo_lem :
      (proto : ℕ)
      → proto < 256
      → recalculate_with_pseudo proto (2 * k) b ≡ some (result (2 * k) (pseudo_header proto b) b)
  unfolding recalculate_with_pseudo
  recalculate_with_pseudo_lem proto h =
      rw (ip_hl_lem b (omega arith), len_lem (2 * k) b c, pad_lem (2 * k) b c)
        (rw (store_cleared, rounds, sum_cleared, add_pseudo_header_lem proto h)
          (finish-cleared (pseudo_header proto b) (omega arith)))

module _ (b : Bytes) (c : IsComplete 2 b) where
  pub recalculate_icmp_message_lem : recalculate_icmp_message b ≡ some (result 2 0 b)
  unfolding recalculate_icmp_message
  recalculate_icmp_message_lem =
      rw (ip_hl_lem b (omega arith), len_lem 2 b c, pad_lem 2 b c)
        (rw (store_cleared 1 b c, rounds 1 b c, sum_cleared 1 b c)
          (subst (λ s. finish (cleared 2 b) (message_start b + 2) s ≡ some (result 2 0 b))
            (let e : message_sum 2 b + 0 ≡ message_sum 2 b = omega arith in e)
            (finish-cleared 1 b c 0 (omega arith))))

-- The word that the routines store.
pub word-result_field :
    (k extra : ℕ) (b : Bytes)
    → IsComplete (2 * k) b
    → word (result (2 * k) extra b) (message_start b + 2 * k)
      ≡ complement (residue (message_sum (2 * k) b + extra))
unfolding result
word-result_field k extra b c =
    word-put_self (cleared (2 * k) b) (message_start b + 2 * k) _
      (omega (arith, length-cleared k b c)) (complement-lt _)
