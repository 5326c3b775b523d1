-- ===== src/Checksum/Words.antt =====
-- 16-bit words of a packet, without the bounds checks, and sums of them: what the loops over `buff`
-- compute while they stay inside the array.
use ndisapi.Base.{
  ℕ, zero, suc, ◌+◌, ◌*◌, ◌/◌, ◌%◌, ◌^◌, ◌≤◌, ◌<◌, ◌≡◌, ◌≢◌, refl, ap, ◌∙◌, some, arith, length,
  get_or, set, get_elem?-eq-get_or, get_or-set_self, get_or-set_ne, length-set,
}
use mathlib.Core.Path.{subst}
use ndisapi.Checksum.{Bytes, load, store, word16, store16, sum_words}

abbrev pub byte : Bytes → ℕ → ℕ
byte b i = get_or b i 0

abbrev pub word : Bytes → ℕ → ℕ
word b i = byte b i % 256 * 256 + byte b (i + 1) % 256

unfoldable pub put : Bytes → ℕ → ℕ → Bytes
put b i v = set (set b i (v / 256 % 256)) (i + 1) (v % 256)

-- The sum of `n` words from byte `i` on.
unfoldable pub words : Bytes → ℕ → ℕ → ℕ
words b i zero = 0
words b i (suc n) = word b i + words b (i + 2) n

pub load_lem : (b : Bytes) (i : ℕ) → i < length b → load b i ≡ some (byte b i)
unfolding load
load_lem b i h = get_elem?-eq-get_or b i 0 h

pub word16_lem : (b : Bytes) (i : ℕ) → i + 1 < length b → word16 b i ≡ some (word b i)
unfolding word16
word16_lem b i h =
    rw (get_elem?-eq-get_or b i 0 (omega arith), get_elem?-eq-get_or b (i + 1) 0 (omega arith))

pub store_lem : (b : Bytes) (i v : ℕ) → i < length b → store b i v ≡ some (set b i v)
unfolding store
store_lem b i v h = ground arith

pub store16_lem : (b : Bytes) (i v : ℕ) → i + 1 < length b → store16 b i v ≡ some (put b i v)
unfolding store16 put
store16_lem b i v h = ground (arith, length-set b i (v / 256 % 256))

pub length-put : (b : Bytes) (i v : ℕ) → length (put b i v) ≡ length b
unfolding put
length-put b i v =
    omega (
      arith,
      length-set (set b i (v / 256 % 256)) (i + 1) (v % 256),
      length-set b i (v / 256 % 256),
    )

pub byte-put_ne : (b : Bytes) (i j v : ℕ) → j ≢ i → j ≢ i + 1 → byte (put b i v) j ≡ byte b j
unfolding put
byte-put_ne b i j v p q = rw (
  get_or-set_ne (set b i (v / 256 % 256)) (i + 1) j (v % 256) 0 (omega arith),
  get_or-set_ne b i j (v / 256 % 256) 0 (omega arith),
)

pub word-put_self : (b : Bytes) (i v : ℕ) → i + 1 < length b → v < 2 ^ 16 → word (put b i v) i ≡ v
unfolding put
word-put_self b i v h hv = omega (
  arith,
  get_or-set_ne (set b i (v / 256 % 256)) (i + 1) i (v % 256) 0 (omega arith),
  get_or-set_self b i (v / 256 % 256) 0 (omega arith),
  get_or-set_self (set b i (v / 256 % 256)) (i + 1) (v % 256) 0
      (omega (arith, length-set b i (v / 256 % 256))),
)

pub word-put_below : (b : Bytes) (i j v : ℕ) → i + 1 < j → word (put b i v) j ≡ word b j
word-put_below b i j v h = omega (
  arith,
  byte-put_ne b i j v (omega arith) (omega arith),
  byte-put_ne b i (j + 1) v (omega arith) (omega arith),
)

pub word-put_above : (b : Bytes) (i j v : ℕ) → j + 1 < i → word (put b i v) j ≡ word b j
word-put_above b i j v h = omega (
  arith,
  byte-put_ne b i j v (omega arith) (omega arith),
  byte-put_ne b i (j + 1) v (omega arith) (omega arith),
)

pub words-put_below : (b : Bytes) (i j v n : ℕ) → i + 1 < j → words (put b i v) j n ≡ words b j n
unfolding words
words-put_below b i j v zero h = refl
words-put_below b i j v (suc n) h =
    omega (arith, word-put_below b i j v h, words-put_below b i (j + 2) v n (omega arith))

words-put_first :
    (b : Bytes) (i v n : ℕ)
    → i + 1 < length b
    → v < 2 ^ 16
    → words (put b i v) i (suc n) + word b i ≡ words b i (suc n) + v
unfolding words
words-put_first b i v n h hv =
    omega (arith, word-put_self b i v h hv, words-put_below b i (i + 2) v n (omega arith))

-- Writing one of the words that a sum covers exchanges that word in the sum.
pub words-put :
    (b : Bytes) (i j k v n : ℕ)
    → j ≡ i + 2 * k
    → k < n
    → j + 1 < length b
    → v < 2 ^ 16
    → words (put b j v) i n + word b j ≡ words b i n + v
unfolding words
words-put b i j k v zero e h hb hv = absurd (omega arith)
words-put b i j zero v (suc n) e h hb hv =
    let at_first : i ≡ j = omega arith in
    subst (λ t. words (put b t v) i (suc n) + word b t ≡ words b i (suc n) + v) at_first
      (words-put_first b i v n (omega arith) hv)
words-put b i j (suc k) v (suc n) e h hb hv = omega (
  arith,
  word-put_above b j i v (omega arith),
  words-put b (i + 2) j k v n (omega arith) (omega arith) hb hv,
)

pub words-le : (b : Bytes) (i n : ℕ) → words b i n ≤ n * 65535
unfolding words
words-le b i zero = omega arith
words-le b i (suc n) = omega (arith, words-le b (i + 2) n)

-- Inside the array and below 2 ^ 32 the loop adds the words up.
pub sum_words_lem :
    (b : Bytes) (i n sum : ℕ)
    → i + 2 * n ≤ length b
    → sum + n * 65535 < 2 ^ 32
    → sum_words b i n sum ≡ some (sum + words b i n)
unfolding sum_words words
sum_words_lem b i zero sum h s = ground arith
sum_words_lem b i (suc n) sum h s = rw (word16_lem b i (omega arith)) (
    sum_words_lem b (i + 2) n ((sum + word b i) % 2 ^ 32) (omega arith) (omega arith)
    ∙ ap some (omega arith))

pub sum_words_zero :
    (b : Bytes) (i n : ℕ)
    → i + 2 * n ≤ length b
    → n * 65535 < 2 ^ 32
    → sum_words b i n 0 ≡ some (words b i n)
sum_words_zero b i n h s = sum_words_lem b i n 0 h (omega arith) ∙ ap some (omega arith)

-- The sum of RFC 1071 over the `len` bytes from `i` on: 16-bit words, and a last odd byte is the high
-- half of a word. Nothing behind the bytes is read.
unfoldable pub octets : Bytes → ℕ → ℕ → ℕ
octets b i zero = 0
octets b i (suc zero) = byte b i % 256 * 256
octets b i (suc (suc len)) = word b i + octets b (i + 2) len

-- The loops sum whole words, which comes to the same where a zero stands behind an odd message.
pub octets-words :
    (b : Bytes) (i len : ℕ)
    → (len % 2 ≡ 1 → byte b (i + len) ≡ 0)
    → octets b i len ≡ words b i ((len + 1) / 2)
unfolding octets words
octets-words b i zero z = refl
octets-words b i (suc zero) z = omega (arith, z refl)
octets-words b i (suc (suc len)) z =
    let half : (suc (suc len) + 1) / 2 ≡ suc ((len + 1) / 2) = omega arith in
    let place : i + 2 + len ≡ i + suc (suc len) = omega arith in
    let rest : octets b (i + 2) len ≡ words b (i + 2) ((len + 1) / 2) =
      octets-words b (i + 2) len (λ o. ap (byte b) place ∙ z (omega arith)) in
    rw (half, rest) refl
