-- ===== src/Handles/Sets.antt =====
-- Lists of handles as sets: distinct entries, inclusion, and the pigeonhole principle.
use ndisapi.Base.{
  ℕ, zero, suc, ◌≤◌, ◌<◌, ◌≡◌, ◌≢◌, refl, ap, true, false, inl, inr, Bool-cases, List, [], ◌∷◌,
  arith, length, get_or, set, replicate, ◌==◌, if◌then◌else◌,
}
use ndisapi.Handles.{contains}

abbrev pub Distinct : List ℕ → Type 0
Distinct [] = Unit
Distinct (x ∷ xs) = (contains x xs ≡ false) × Distinct xs

-- Entries that are not 0 are distinct.
abbrev pub DistinctUsed : List ℕ → Type 0
DistinctUsed [] = Unit
DistinctUsed (x ∷ xs) = (x ≢ 0 → contains x xs ≡ false) × DistinctUsed xs

abbrev pub AllIn : List ℕ → List ℕ → Type 0
AllIn ys [] = Unit
AllIn ys (x ∷ xs) = (contains x ys ≡ true) × AllIn ys xs

remove : ℕ → List ℕ → List ℕ
remove x [] = []
remove x (y ∷ ys) = if y == x then ys else y ∷ remove x ys

length-remove :
    (x : ℕ) (ys : List ℕ) → contains x ys ≡ true → length ys ≡ suc (length (remove x ys))
unfolding contains remove
length-remove x [] h = cc
length-remove x (y ∷ ys) h = ground (arith, length-remove x ys)

contains-remove :
    (x z : ℕ) (ys : List ℕ) → contains z ys ≡ true → x ≢ z → contains z (remove x ys) ≡ true
unfolding contains remove
contains-remove x z [] h ne = h
contains-remove x z (y ∷ ys) h ne = ground (arith, contains-remove x z ys)

AllIn-remove :
    (x : ℕ) (xs ys : List ℕ) → AllIn ys xs → contains x xs ≡ false → AllIn (remove x ys) xs
unfolding contains
AllIn-remove x [] ys a h = tt
AllIn-remove x (z ∷ xs) ys a h =
    (contains-remove x z ys a.0 (ground arith), AllIn-remove x xs ys a.1 (ground arith))

-- A set inside another is no longer than it.
pub pigeonhole : (xs ys : List ℕ) → Distinct xs → AllIn ys xs → length xs ≤ length ys
pigeonhole [] ys d a = omega arith
pigeonhole (x ∷ xs) ys d a =
    omega (
      arith,
      length-remove x ys a.0,
      pigeonhole xs (remove x ys) d.1 (AllIn-remove x xs ys a.1 d.0),
    )

pub contains-get_or : (xs : List ℕ) (k : ℕ) → k < length xs → contains (get_or xs k 0) xs ≡ true
unfolding contains
contains-get_or [] k h = absurd (omega arith)
contains-get_or (x ∷ xs) zero h = ground arith
contains-get_or (x ∷ xs) (suc k) h = ground (arith, contains-get_or xs k (omega arith))

-- A handle that is there stands at some index.
pub index_of :
    (h : ℕ) (xs : List ℕ) → contains h xs ≡ true → (k : ℕ) × (k < length xs) × (get_or xs k 0 ≡ h)
unfolding contains
index_of h [] c = cc
index_of h (x ∷ xs) c = elim (Bool-cases (x == h)) [
  | inl e ↦ (0, omega arith, ground arith)
  | inr ne ↦ let (k, lt, g) = index_of h xs (ground arith) in (suc k, omega arith, g)
]

pub contains-set_self : (xs : List ℕ) (k h : ℕ) → k < length xs → contains h (set xs k h) ≡ true
unfolding contains
contains-set_self [] k h lt = absurd (omega arith)
contains-set_self (x ∷ xs) zero h lt = ground arith
contains-set_self (x ∷ xs) (suc k) h lt = ground (arith, contains-set_self xs k h (omega arith))

contains-set-false :
    (xs : List ℕ) (k h z : ℕ) → z ≢ h → contains z xs ≡ false → contains z (set xs k h) ≡ false
unfolding contains
contains-set-false [] k h z ne c = c
contains-set-false (x ∷ xs) zero h z ne c = ground arith
contains-set-false (x ∷ xs) (suc k) h z ne c = ground (arith, contains-set-false xs k h z ne)

-- A handle stays, unless it stood in the entry that is written.
pub contains-set_ne :
    (xs : List ℕ) (k h z : ℕ)
    → z ≢ get_or xs k 0
    → contains z xs ≡ true
    → contains z (set xs k h) ≡ true
unfolding contains
contains-set_ne [] k h z ne c = c
contains-set_ne (x ∷ xs) zero h z ne c = ground arith
contains-set_ne (x ∷ xs) (suc k) h z ne c = ground (arith, contains-set_ne xs k h z ne)

-- Writing a handle that is not there keeps the used entries distinct.
pub DistinctUsed-set :
    (xs : List ℕ) (k h : ℕ) → contains h xs ≡ false → DistinctUsed xs → DistinctUsed (set xs k h)
unfolding contains
DistinctUsed-set [] k h c d = tt
DistinctUsed-set (x ∷ xs) zero h c d = (λ _. ground arith, d.1)
DistinctUsed-set (x ∷ xs) (suc k) h c d = (
  λ ne. contains-set-false xs k h x (ground arith) (d.0 ne),
  DistinctUsed-set xs k h (ground arith) d.1,
)

-- Entries that all occur in a list without 0 are used, so they are distinct.
pub DistinctUsed-Distinct :
    (xs ys : List ℕ) → contains 0 ys ≡ false → AllIn ys xs → DistinctUsed xs → Distinct xs
DistinctUsed-Distinct [] ys z a d = tt
DistinctUsed-Distinct (x ∷ xs) ys z a d =
    (d.0 (λ e. cc (ap (λ t. contains t ys) e)), DistinctUsed-Distinct xs ys z a.1 d.1)

pub not-contains-zeros : (n h : ℕ) → h ≢ 0 → contains h (replicate n 0) ≡ false
unfolding contains
not-contains-zeros zero h ne = refl
not-contains-zeros (suc n) h ne = ground (arith, not-contains-zeros n h ne)

pub DistinctUsed-zeros : (n : ℕ) → DistinctUsed (replicate n 0)
DistinctUsed-zeros zero = tt
DistinctUsed-zeros (suc n) = (λ ne. absurd (ne refl), DistinctUsed-zeros n)
