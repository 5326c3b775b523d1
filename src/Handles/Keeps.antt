-- ===== src/Handles/Keeps.antt =====
-- Update as a whole: the invariant of the table, and what becomes of the adapters of the list.
use ndisapi.Base.{
  ℕ, zero, suc, ◌+◌, ◌-◌, ◌^◌, ◌≤◌, ◌<◌, ◌≡◌, ◌≢◌, ◌∙◌, sym, refl, ap, true, false, some, List, [],
  ◌∷◌, arith, length, take, length-take, get_or, replicate, Bool-cases, inl, inr, ◌==◌,
}
use mathlib.Core.Path.{subst}
use ndisapi.Handles.{
  HandleTable, empty, adapter_list_size, contains, fill, place_all, update_slots, update,
  from_32_to_64, from_64_to_32,
}
use ndisapi.Handles.Sets.{
  Distinct, DistinctUsed, AllIn, index_of, not-contains-zeros, DistinctUsed-zeros,
}
use ndisapi.Handles.Lookup.{from_32_to_64-from_64_to_32, from_64_to_32-get_or}
use ndisapi.Handles.Update.{place_all-Placed}

-- The invariant of the table.
pub record IsValid (t : HandleTable) : Type 0 where
  pub size : length t.slots ≡ adapter_list_size
  pub distinct : DistinctUsed t.slots
  pub fresh : t.flag ≡ 0 → t.slots ≡ replicate 32 0

-- What the driver gives: at most 32 different adapters, none with the null handle.
pub record IsAdapterList (hs : List ℕ) : Type 0 where
  pub fits : length hs ≤ adapter_list_size
  pub distinct : Distinct hs
  pub no_null : contains 0 hs ≡ false

AllIn-of : (xs ys : List ℕ) → ((z : ℕ) → contains z xs ≡ true → contains z ys ≡ true) → AllIn ys xs
unfolding contains
AllIn-of [] ys h = tt
AllIn-of (x ∷ xs) ys h = (h x (ground arith), AllIn-of xs ys (λ z c. h z (ground arith)))

contains-of_AllIn :
    (z : ℕ) (xs ys : List ℕ) → AllIn ys xs → contains z xs ≡ true → contains z ys ≡ true
unfolding contains
contains-of_AllIn z [] ys a c = cc
contains-of_AllIn z (x ∷ xs) ys a c = ground (arith, contains-of_AllIn z xs ys a.1)

length-fill : (hs slots : List ℕ) → length hs ≤ length slots → length (fill hs slots) ≡ length slots
unfolding fill
length-fill [] slots h = refl
length-fill (x ∷ hs) [] h = absurd (omega arith)
length-fill (x ∷ hs) (s ∷ slots) h = ap suc (length-fill hs slots (omega arith))

contains-fill :
    (z : ℕ) (hs slots : List ℕ)
    → length hs ≤ length slots
    → contains z hs ≡ true
    → contains z (fill hs slots) ≡ true
unfolding contains fill
contains-fill z [] slots h c = cc
contains-fill z (x ∷ hs) [] h c = absurd (omega arith)
contains-fill z (x ∷ hs) (s ∷ slots) h c = ground (arith, contains-fill z hs slots)

fill-absent :
    (z n : ℕ) (hs : List ℕ)
    → z ≢ 0
    → contains z hs ≡ false
    → contains z (fill hs (replicate n 0)) ≡ false
unfolding contains fill
fill-absent z n [] nz c = not-contains-zeros n z nz
fill-absent z zero (x ∷ hs) nz c = refl
fill-absent z (suc n) (x ∷ hs) nz c = ground (arith, fill-absent z n hs nz)

DistinctUsed-fill : (n : ℕ) (hs : List ℕ) → Distinct hs → DistinctUsed (fill hs (replicate n 0))
unfolding fill
DistinctUsed-fill n [] d = DistinctUsed-zeros n
DistinctUsed-fill zero (x ∷ hs) d = tt
DistinctUsed-fill (suc n) (x ∷ hs) d = (λ nz. fill-absent x n hs nz d.0, DistinctUsed-fill n hs d.1)

-- Zero slots hold no adapter.
zero-slot :
    (n k : ℕ) (hs : List ℕ)
    → contains 0 hs ≡ false
    → contains (get_or (replicate n 0) k 0) hs ≡ false
zero-slot zero k hs z = z
zero-slot (suc n) zero hs z = z
zero-slot (suc n) (suc k) hs z = zero-slot n k hs z

-- What Update promises.
pub record Updated (hs : List ℕ) (t t' : HandleTable) : Type 0 where
  pub valid : IsValid t'
  pub present : (h : ℕ) → contains h hs ≡ true → contains h t'.slots ≡ true
  pub kept :
      (k : ℕ)
      → k < adapter_list_size
      → contains (get_or t.slots k 0) hs ≡ true
      → get_or t'.slots k 0 ≡ get_or t.slots k 0

first-Updated :
    (t : HandleTable) (hs : List ℕ)
    → IsValid t
    → IsAdapterList hs
    → t.flag ≡ 0
    → Updated hs t (record { flag = 2 ^ 64 - 1; slots = fill hs t.slots })
first-Updated t hs v a first =
    let zeros = v.fresh first in
    record {
      valid = record {
        size = length-fill hs t.slots (omega (arith, a.fits, v.size)) ∙ v.size;
        distinct =
            subst (λ s. DistinctUsed (fill hs s)) (sym zeros) (DistinctUsed-fill 32 hs a.distinct);
        fresh = λ e. absurd (omega arith);
      };
      present = λ h c. contains-fill h hs t.slots (omega (arith, a.fits, v.size)) c;
      kept =
          λ k lt live. cc (ap (λ s. contains (get_or s k 0) hs) zeros, zero-slot 32 k hs a.no_null);
    }

later-Updated :
    (t : HandleTable) (hs : List ℕ)
    → IsValid t
    → IsAdapterList hs
    → t.flag ≢ 0
    → Updated hs t (record { flag = t.flag; slots = place_all hs hs t.slots })
later-Updated t hs v a used =
    let p =
      place_all-Placed hs hs t.slots (AllIn-of hs hs (λ z c. c)) a.no_null
        (omega (arith, a.fits, v.size)) v.distinct in
    record {
      valid = record {
        size = p.same_size ∙ v.size;
        distinct = p.distinct;
        fresh = λ e. absurd (used e);
      };
      present = λ h c. contains-of_AllIn h hs (place_all hs hs t.slots) p.present c;
      kept = λ k lt live. p.kept k (omega (arith, v.size)) live;
    }

update_slots-Updated :
    (t : HandleTable) (hs : List ℕ)
    → IsValid t
    → IsAdapterList hs
    → Updated hs t (update_slots t hs)
unfolding update_slots
update_slots-Updated t hs v a = elim (Bool-cases (t.flag == 0)) [
  | inl first ↦ rw first (first-Updated t hs v a (ground arith))
  | inr later ↦ rw later (later-Updated t hs v a (ground arith))
]

-- From a valid table and a list of the driver, whose count is within its array, Update stays inside
-- the arrays and gives a valid table that holds every adapter of the list, and in which every
-- entry that held an adapter of the list still holds it.
pub update-Updated :
    (t : HandleTable) (count : ℕ) (handles : List ℕ)
    → IsValid t
    → count ≤ length handles
    → IsAdapterList (take count handles)
    → (t' : HandleTable) × (update t count handles ≡ some t') × Updated (take count handles) t t'
unfolding update
update-Updated t count handles v le a = (
  update_slots t (take count handles),
  ground (arith, a.fits, length-take count handles),
  update_slots-Updated t (take count handles) v a,
)

-- A count within both arrays is enough for Update to stay inside them.
pub update_total :
    (t : HandleTable) (count : ℕ) (handles : List ℕ)
    → count ≤ length handles
    → count ≤ adapter_list_size
    → (t' : HandleTable) × (update t count handles ≡ some t')
unfolding update
update_total t count handles le fits = (update_slots t (take count handles), ground arith)

number-get_or :
    (t : HandleTable) (h k : ℕ)
    → DistinctUsed t.slots
    → k < length t.slots
    → h ≢ 0
    → get_or t.slots k 0 ≡ h
    → from_64_to_32 t h ≡ k + 1
number-get_or t h k d lt nz g =
    ap (from_64_to_32 t) (sym g) ∙ from_64_to_32-get_or t k d lt (λ e. nz (sym g ∙ e))

number-Updated :
    (hs : List ℕ) (t t' : HandleTable) (h : ℕ)
    → IsValid t
    → Updated hs t t'
    → contains 0 hs ≡ false
    → contains h hs ≡ true
    → contains h t.slots ≡ true
    → from_64_to_32 t' h ≡ from_64_to_32 t h
number-Updated hs t t' h v u z live old =
    let (k, lt, g) = index_of h t.slots old in
    let nz : h ≢ 0 = λ e. cc (ap (λ x. contains x hs) e) in
    let same : get_or t'.slots k 0 ≡ h =
      u.kept k (omega (arith, v.size)) (ap (λ x. contains x hs) g ∙ live) ∙ g in
    number-get_or t' h k u.valid.distinct (omega (arith, u.valid.size, v.size)) nz same
    ∙ sym (number-get_or t h k v.distinct lt nz g)

-- From a valid table and a list of the driver, the 32-bit number that a client holds for an adapter
-- stays its number through an Update with a list that still has the adapter, and leads to the
-- adapter in the new table.
pub from_64_to_32-update :
    (t : HandleTable) (count : ℕ) (handles : List ℕ) (h : ℕ)
    → IsValid t
    → count ≤ length handles
    → IsAdapterList (take count handles)
    → contains h (take count handles) ≡ true
    → contains h t.slots ≡ true
    → (t' : HandleTable) × (update t count handles ≡ some t')
      × (from_64_to_32 t' h ≡ from_64_to_32 t h)
      × (from_32_to_64 t' (from_64_to_32 t h) ≡ some h)
from_64_to_32-update t count handles h v le a live old =
    let (t', e, u) = update-Updated t count handles v le a in
    let same = number-Updated (take count handles) t t' h v u a.no_null live old in
    (t', e, same, rw (← same) (from_32_to_64-from_64_to_32 t' h (u.present h live)).2)

pub IsValid-empty : IsValid empty
IsValid-empty = record { size = refl; distinct = DistinctUsed-zeros 32; fresh = λ _. refl }
