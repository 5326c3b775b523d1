-- ===== src/Api/Filters/Translate.antt =====
-- The adapter handles of the filter table on their way to the driver and back.
use ndisapi.Base.{
  ℕ, zero, suc, ◌%◌, ◌^◌, ◌≤◌, ◌<◌, ◌≡◌, ◌≢◌, ◌∙◌, refl, ap, true, false, Option, none, some, List,
  [], ◌∷◌, arith, length, ◌==◌,
}
use ndisapi.Driver.{StaticFilter}
use ndisapi.Handles.{HandleTable, contains, from_32_to_64, from_64_to_32}
use ndisapi.Handles.Sets.{DistinctUsed}
use ndisapi.Handles.Lookup.{
  from_32_to_64-from_64_to_32, from_64_to_32-from_32_to_64, from_32_to_64-out,
}
use ndisapi.Api.Filters.{filter_out, filters_out, filter_in, filters_in}

-- Each of the first `n` filters names an adapter of the table by its number.
abbrev pub AllNamed : HandleTable → ℕ → List StaticFilter → Type 0
AllNamed t zero fs = Unit
AllNamed t (suc n) [] = ⊥
AllNamed t (suc n) (f ∷ fs) =
    (f.adapter ≢ 0)
    × (f.adapter < 2 ^ 32)
    × ((h : ℕ) × (from_32_to_64 t f.adapter ≡ some h) × (h ≢ 0))
    × AllNamed t n fs

pub filter_out-named :
    (t : HandleTable) (f : StaticFilter) (h : ℕ)
    → f.adapter ≢ 0
    → f.adapter < 2 ^ 32
    → from_32_to_64 t f.adapter ≡ some h
    → filter_out t f ≡ some (record f { adapter = h })
unfolding filter_out
filter_out-named t f h nz lt e =
    let low : f.adapter % 2 ^ 32 ≡ f.adapter = omega arith in
    let found : from_32_to_64 t (f.adapter % 2 ^ 32) ≡ some h = ap (from_32_to_64 t) low ∙ e in
    ground arith

filter_in-named :
    (t : HandleTable) (f : StaticFilter) (h : ℕ)
    → from_64_to_32 t h ≡ f.adapter
    → filter_in t (record f { adapter = h }) ≡ f
unfolding filter_in
filter_in-named t f h e = ap (λ a. record f { adapter = a }) e

pub filters_out-step :
    (t : HandleTable) (n : ℕ) (f g : StaticFilter) (fs gs : List StaticFilter)
    → filter_out t f ≡ some g
    → filters_out t n fs ≡ some gs
    → filters_out t (suc n) (f ∷ fs) ≡ some (g ∷ gs)
unfolding filters_out
filters_out-step t n f g fs gs one out =
    ap
      (λ o. elim o [
        | none ↦ none
        | some g' ↦ elim (filters_out t n fs) [ none ↦ none | some gs' ↦ some (g' ∷ gs') ]
      ])
      one
    ∙ ap (λ o. elim o [ none ↦ none | some gs' ↦ some (g ∷ gs') ]) out

filters_in-step :
    (t : HandleTable) (n : ℕ) (f g : StaticFilter) (fs gs : List StaticFilter)
    → filter_in t g ≡ f
    → filters_in t n gs ≡ some fs
    → filters_in t (suc n) (g ∷ gs) ≡ some (f ∷ fs)
unfolding filters_in
filters_in-step t n f g fs gs one back =
    ap (λ o. elim o [ none ↦ none | some gs' ↦ some (filter_in t g ∷ gs') ]) back
    ∙ ap (λ x. some (x ∷ fs)) one

-- On the WOW64 path, for a table with distinct handles and filters that name adapters of the table,
-- the loop of SetPacketFilterTable succeeds, and the loop of the methods that read the table gives
-- back the caller's filters.
pub filters_in-filters_out :
    (t : HandleTable) (n : ℕ) (fs : List StaticFilter)
    → DistinctUsed t.slots
    → AllNamed t n fs
    → (gs : List StaticFilter) × (filters_out t n fs ≡ some gs) × (filters_in t n gs ≡ some fs)
unfolding filters_out filters_in
filters_in-filters_out t zero fs d a = (fs, refl, refl)
filters_in-filters_out t (suc n) [] d a = absurd a
filters_in-filters_out t (suc n) (f ∷ fs) d (nz, lt, (h, e, hz), a) =
    let (gs, out, back) = filters_in-filters_out t n fs d a in
    let one = filter_out-named t f h nz lt e in
    let two = filter_in-named t f h (from_64_to_32-from_32_to_64 t f.adapter h d nz hz e) in
    let g : StaticFilter = record f { adapter = h } in
    (g ∷ gs, filters_out-step t n f g fs gs one out, filters_in-step t n f g fs gs two back)

-- A filter for every adapter, with the handle 0, goes to the driver unchanged; once the table has an
-- unused entry the methods that read the filter table give it the number, which is not 0 and lies
-- within the table, of an entry that holds 0, so it comes back as another filter.
pub filter_in-any_adapter :
    (t : HandleTable) (f : StaticFilter)
    → f.adapter ≡ 0
    → contains 0 t.slots ≡ true
    → (filter_out t f ≡ some f)
      × (0 < (filter_in t f).adapter)
      × ((filter_in t f).adapter ≤ length t.slots)
      × (from_32_to_64 t (filter_in t f).adapter ≡ some 0)
      × (filter_in t f ≢ f)
unfolding filter_out filter_in
filter_in-any_adapter t f z c =
    let (positive, within, unused) = from_32_to_64-from_64_to_32 t 0 c in
    let same : from_64_to_32 t f.adapter ≡ from_64_to_32 t 0 = ap (from_64_to_32 t) z in
    (
      ground arith,
      omega (arith, same),
      omega (arith, same),
      ap (from_32_to_64 t) same ∙ unused,
      λ e. absurd (omega (arith, same, ap (λ x. x.adapter) e)),
    )

-- A filter that holds a 64-bit handle is taken for one with the number in the low half.
pub filter_out-past :
    (t : HandleTable) (f : StaticFilter) (h : ℕ)
    → length t.slots < h % 2 ^ 32
    → filter_out t (record f { adapter = h }) ≡ none
unfolding filter_out
filter_out-past t f h past =
    let out : from_32_to_64 t (h % 2 ^ 32) ≡ none = from_32_to_64-out t (h % 2 ^ 32) past in
    let used : (h == 0) ≡ false = ground arith in rw used (rw out refl)

pub filters_out-past :
    (t : HandleTable) (n : ℕ) (f : StaticFilter) (fs : List StaticFilter) (h : ℕ)
    → length t.slots < h % 2 ^ 32
    → filters_out t (suc n) (record f { adapter = h } ∷ fs) ≡ none
unfolding filters_out
filters_out-past t n f fs h past =
    ap
      (λ o. elim o as (λ _. Option (List StaticFilter)) [
        | none ↦ none
        | some g ↦ elim (filters_out t n fs) [ none ↦ none | some gs ↦ some (g ∷ gs) ]
      ])
      (filter_out-past t f h past)
