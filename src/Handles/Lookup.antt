-- ===== src/Handles/Lookup.antt =====
-- From32to64Handle and From64to32Handle together.
use ndisapi.Base.{
  ℕ, zero, suc, ◌+◌, ◌≤◌, ◌<◌, ◌≡◌, ◌≢◌, ◌∙◌, refl, sym, ap, true, false, none, some, List, [], ◌∷◌,
  arith, length, get_or, get_elem?-eq-get_or, get_elem?-out, get_elem?-inv, Bool-cases, inl, inr,
  ◌==◌,
}
use ndisapi.Handles.{HandleTable, contains, find_slot, from_32_to_64, from_64_to_32}
use ndisapi.Handles.Sets.{DistinctUsed, contains-get_or}

find_slot-contains :
    (h i : ℕ) (slots : List ℕ)
    → contains h slots ≡ true
    → (k : ℕ) × (find_slot h i slots ≡ i + k) × (k < length slots) × (get_or slots k 0 ≡ h)
unfolding contains find_slot
find_slot-contains h i [] c = cc
find_slot-contains h i (s ∷ slots) c = elim (Bool-cases (s == h)) [
  | inl e ↦ (0, ground arith, omega arith, ground arith)
  | inr ne ↦
      let (k, e, lt, g) = find_slot-contains h (i + 1) slots (ground arith) in
      (suc k, ground arith, omega arith, g)
]

find_slot-get_or :
    (i k : ℕ) (slots : List ℕ)
    → DistinctUsed slots
    → k < length slots
    → get_or slots k 0 ≢ 0
    → find_slot (get_or slots k 0) i slots ≡ i + k
unfolding find_slot
find_slot-get_or i k [] d lt nz = absurd (omega arith)
find_slot-get_or i zero (s ∷ slots) d lt nz = ground arith
find_slot-get_or i (suc k) (s ∷ slots) d lt nz = ground (
  arith,
  find_slot-get_or (i + 1) k slots d.1 (omega arith) nz,
  contains-get_or slots k (omega arith),
)

find_slot-absent : (h i : ℕ) (slots : List ℕ) → contains h slots ≡ false → find_slot h i slots ≡ 0
unfolding contains find_slot
find_slot-absent h i [] c = refl
find_slot-absent h i (s ∷ slots) c = ground (arith, find_slot-absent h (i + 1) slots)

-- A 64-bit handle of the table has a 32-bit number from 1 on, within the table, and
-- From32to64Handle leads from the number back to the handle.
pub from_32_to_64-from_64_to_32 :
    (t : HandleTable) (h : ℕ)
    → contains h t.slots ≡ true
    → (0 < from_64_to_32 t h)
      × (from_64_to_32 t h ≤ length t.slots)
      × (from_32_to_64 t (from_64_to_32 t h) ≡ some h)
unfolding from_32_to_64 from_64_to_32
from_32_to_64-from_64_to_32 t h c =
    let (k, e, lt, g) = find_slot-contains h 1 t.slots c in
    let e' : find_slot h 1 t.slots ≡ suc k = omega arith in
    (omega arith, omega arith, rw e' (get_elem?-eq-get_or t.slots k 0 lt ∙ ap some g))

-- A used entry of a table with distinct handles is found again under its own number.
pub from_64_to_32-get_or :
    (t : HandleTable) (k : ℕ)
    → DistinctUsed t.slots
    → k < length t.slots
    → get_or t.slots k 0 ≢ 0
    → from_64_to_32 t (get_or t.slots k 0) ≡ k + 1
unfolding from_64_to_32
from_64_to_32-get_or t k d lt nz = find_slot-get_or 1 k t.slots d lt nz ∙ omega arith

-- A handle that the table does not hold has the number 0.
pub from_64_to_32-absent :
    (t : HandleTable) (h : ℕ) → contains h t.slots ≡ false → from_64_to_32 t h ≡ 0
unfolding from_64_to_32
from_64_to_32-absent t h c = find_slot-absent h 1 t.slots c

-- In a table with distinct handles, the number, other than 0, that From32to64Handle leads from to a
-- handle other than 0 is the number that From64to32Handle gives for that handle.
pub from_64_to_32-from_32_to_64 :
    (t : HandleTable) (n h : ℕ)
    → DistinctUsed t.slots
    → n ≢ 0
    → h ≢ 0
    → from_32_to_64 t n ≡ some h
    → from_64_to_32 t h ≡ n
unfolding from_32_to_64
from_64_to_32-from_32_to_64 t zero h d nz hz e = absurd (nz refl)
from_64_to_32-from_32_to_64 t (suc i) h d nz hz e =
    let (lt, g) = get_elem?-inv t.slots i h 0 e in
    ap (from_64_to_32 t) (sym g) ∙ from_64_to_32-get_or t i d lt (λ z. hz (sym g ∙ z)) ∙ omega arith

-- A number past the table leads outside the array.
pub from_32_to_64-out : (t : HandleTable) (n : ℕ) → length t.slots < n → from_32_to_64 t n ≡ none
unfolding from_32_to_64
from_32_to_64-out t zero h = absurd (omega arith)
from_32_to_64-out t (suc n) h = get_elem?-out t.slots n (omega arith)
