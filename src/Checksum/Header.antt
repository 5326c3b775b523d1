-- ===== src/Checksum/Header.antt =====
-- RecalculateIPChecksum, and what a receiver of the header checks.
use ndisapi.Base.{
  ℕ, ◌+◌, ◌*◌, ◌/◌, ◌%◌, ◌^◌, ◌≤◌, ◌<◌, ◌≡◌, ◌≢◌, refl, ap, ◌∙◌, some, arith, length,
}
use ndisapi.Checksum.{Bytes, ip_header, ip_hl, finish, complement, recalculate_ip_checksum}
use ndisapi.Checksum.Words.{
  byte, put, words, load_lem, store16_lem, length-put, byte-put_ne, word-put_self, words-put,
  words-le, sum_words_zero,
}
use ndisapi.Checksum.Carries.{residue, fold_carries_lem, residue-complement, complement-lt}

abbrev pub header_words : Bytes → ℕ
header_words b = byte b ip_header % 16 * 2

-- What a receiver tests: the words of the header, its checksum included, add up to 0xFFFF.
abbrev pub HeaderVerifies : Bytes → Type 0
HeaderVerifies b = residue (words b ip_header (header_words b)) ≡ 65535

-- Only the two bytes of the field at `at` differ.
pub record SameBut (at : ℕ) (b b' : Bytes) : Type 0 where
  pub same_length : length b' ≡ length b
  pub same_bytes : (j : ℕ) → j ≢ at → j ≢ at + 1 → byte b' j ≡ byte b j

pub finish_lem :
    (b : Bytes) (at sum : ℕ)
    → at + 1 < length b
    → sum < 2 ^ 32
    → finish b at sum ≡ some (put b at (complement (residue sum)))
unfolding finish
finish_lem b at sum h s =
    rw (fold_carries_lem sum s) (store16_lem b at (complement (residue sum)) h)

pub ip_hl_lem : (b : Bytes) → ip_header < length b → ip_hl b ≡ some (byte b ip_header % 16)
unfolding ip_hl
ip_hl_lem b h = rw (load_lem b ip_header h)

-- Clearing a field of a summed region and storing the complement of the rest's sum makes the
-- region verify; `extra` is what is summed beside the region.
pub put-put_verifies :
    (b : Bytes) (i k n extra sum : ℕ)
    → k < n
    → i + 2 * k + 1 < length b
    → sum < 2 ^ 32
    → sum ≡ words (put b (i + 2 * k) 0) i n + extra
    → residue (words (put (put b (i + 2 * k) 0) (i + 2 * k) (complement (residue sum))) i n + extra)
      ≡ 65535
put-put_verifies b i k n extra sum hk hb hs e =
    ap residue (
      omega (
        arith,
        words-put cleared i at k c n refl hk (omega (arith, length-put b at 0)) (complement-lt _),
        word-put_self b at 0 hb (omega arith),
      ))
    ∙ residue-complement sum hs
  where
    at : ℕ
    at = i + 2 * k

    cleared : Bytes
    cleared = put b at 0

    c : ℕ
    c = complement (residue sum)

pub put-put-SameBut : (b : Bytes) (at v w : ℕ) → SameBut at b (put (put b at v) at w)
put-put-SameBut b at v w = record {
  same_length = length-put (put b at v) at w ∙ length-put b at v;
  same_bytes = λ j p q. byte-put_ne (put b at v) at j w p q ∙ byte-put_ne b at j v p q;
}

-- The result of the routine on a header that lies inside the packet.
pub ip_result : Bytes → Bytes
ip_result b =
    let cleared = put b (ip_header + 10) 0 in
    put cleared (ip_header + 10) (complement (residue (words cleared ip_header (header_words b))))

pub recalculate_ip_checksum_lem :
    (b : Bytes)
    → 3 ≤ byte b ip_header % 16
    → ip_header + byte b ip_header % 16 * 4 ≤ length b
    → recalculate_ip_checksum b ≡ some (ip_result b)
unfolding recalculate_ip_checksum ip_result
recalculate_ip_checksum_lem b h3 hl =
    let count : byte b 14 % 16 * 4 / 2 ≡ header_words b = omega arith in
    let size : length (put b 24 0) ≡ length b = length-put b 24 0 in
    rw (store16_lem b 24 0 (omega arith), ip_hl_lem (put b 24 0) (omega arith))
      (rw (byte-put_ne b 24 14 0 (omega arith) (omega arith), count)
        (rw (sum_words_zero (put b 24 0) 14 (header_words b) (omega arith) (omega arith)) (
          finish_lem (put b 24 0) 24 (words (put b 24 0) 14 (header_words b)) (omega arith)
            (omega (arith, words-le (put b 24 0) 14 (header_words b))))))

-- For a packet whose IPv4 header (of ip_hl ≥ 3 words, so that it has the checksum field) lies inside
-- the packet, RecalculateIPChecksum stays inside the array, the header that it leaves verifies,
-- and no byte but the two of ip_sum changes, nor the length.
pub recalculate_ip_checksum-HeaderVerifies :
    (b : Bytes)
    → 3 ≤ byte b ip_header % 16
    → ip_header + byte b ip_header % 16 * 4 ≤ length b
    → (b' : Bytes) × (recalculate_ip_checksum b ≡ some b')
      × HeaderVerifies b'
      × SameBut (ip_header + 10) b b'
unfolding ip_result
recalculate_ip_checksum-HeaderVerifies b h3 hl = (
  ip_result b,
  recalculate_ip_checksum_lem b h3 hl,
  rw same (
      ap residue (omega arith)
      ∙ put-put_verifies b 14 5 count 0 sum (omega arith) (omega arith) small (omega arith)),
  put-put-SameBut b 24 0 _,
)
  where
    count : ℕ
    count = header_words b

    sum : ℕ
    sum = words (put b 24 0) 14 count

    small : sum < 2 ^ 32
    small = omega (arith, words-le (put b 24 0) 14 count)

    same : byte (put (put b 24 0) 24 (complement (residue sum))) 14 ≡ byte b 14
    same = (put-put-SameBut b 24 0 _).same_bytes 14 (omega arith) (omega arith)
