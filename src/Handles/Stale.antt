-- ===== src/Handles/Stale.antt =====
-- The search of Update for an entry that can be replaced: one whose handle is not in the new list.
use ndisapi.Base.{
  ℕ, zero, suc, ◌+◌, ◌-◌, ◌<◌, ◌≡◌, ◌≢◌, ◌⊎◌, inl, inr, refl, sym, ap, ◌∙◌, true, false, List, [],
  ◌∷◌, ◌++◌, arith, length, get_or, Bool-cases, ◌==◌, if◌then◌else◌,
}
use ndisapi.Handles.{contains, scan_entry, find_pos}
use ndisapi.Handles.Sets.{AllIn}

-- An entry that is in the list leaves `pos`.
scan_entry-live :
    (s j : ℕ) (hs : List ℕ) (pos : ℕ) → j ≢ 0 → contains s hs ≡ true → scan_entry s j hs pos ≡ pos
unfolding scan_entry contains
scan_entry-live s j [] pos nz c = refl
scan_entry-live s j (h ∷ []) pos nz c = ground arith
scan_entry-live s j (h ∷ (h2 ∷ hs)) pos nz c = ground (arith, scan_entry-live s j (h2 ∷ hs) pos nz)

-- One that is not is taken if none was, and otherwise changes `pos` only for a list of one.
scan_entry-stale :
    (s j : ℕ) (h : ℕ) (hs : List ℕ) → contains s (h ∷ hs) ≡ false → scan_entry s j (h ∷ hs) 0 ≡ j
unfolding scan_entry contains
scan_entry-stale s j h [] c = ground arith
scan_entry-stale s j h (h2 ∷ hs) c = ground (arith, scan_entry-stale s j h2 hs)

scan_entry-taken :
    (s j : ℕ) (hs : List ℕ) (pos : ℕ)
    → contains s hs ≡ false
    → (scan_entry s j hs pos ≡ pos) ⊎ (scan_entry s j hs pos ≡ j)
unfolding scan_entry contains
scan_entry-taken s j [] pos c = inl refl
scan_entry-taken s j (h ∷ []) pos c = inr (ground arith)
scan_entry-taken s j (h ∷ (h2 ∷ hs)) pos c = ground (arith, scan_entry-taken s j (h2 ∷ hs) pos)

-- A search that starts at `j` keeps `pos`, or finds an entry whose handle is not in the list.
abbrev pub Found : List ℕ → List ℕ → ℕ → ℕ → ℕ → Type 0
Found hs slots j pos p =
    (p ≡ pos)
    ⊎ ((k : ℕ) × (p ≡ j + k) × (k < length slots) × (contains (get_or slots k 0) hs ≡ false))

Found-later :
    (hs : List ℕ) (s : ℕ) (slots : List ℕ) (j pos p : ℕ)
    → Found hs slots (j + 1) pos p
    → Found hs (s ∷ slots) j pos p
Found-later hs s slots j pos p (inl e) = inl e
Found-later hs s slots j pos p (inr (k, e, lt, c)) = inr (suc k, omega arith, omega arith, c)

Found-here :
    (hs : List ℕ) (s : ℕ) (slots : List ℕ) (j pos p : ℕ)
    → contains s hs ≡ false
    → Found hs slots (j + 1) j p
    → Found hs (s ∷ slots) j pos p
Found-here hs s slots j pos p c (inl e) = inr (0, omega arith, omega arith, c)
Found-here hs s slots j pos p c (inr (k, e, lt, d)) = inr (suc k, omega arith, omega arith, d)

pub find_pos-Found :
    (hs slots : List ℕ) (j pos : ℕ) → j ≢ 0 → Found hs slots j pos (find_pos hs j pos slots)
unfolding find_pos
find_pos-Found hs [] j pos nz = inl refl
find_pos-Found hs (s ∷ slots) j pos nz = elim (Bool-cases (contains s hs)) [
  | inl live ↦
      rw (scan_entry-live s j hs pos nz live)
        (Found-later hs s slots j pos _ (find_pos-Found hs slots (j + 1) pos (omega arith)))
  | inr stale ↦ elim (scan_entry-taken s j hs pos stale) [
    | inl same ↦
        rw same (Found-later hs s slots j pos _ (find_pos-Found hs slots (j + 1) pos (omega arith)))
    | inr here ↦
        rw here
          (Found-here hs s slots j pos _ stale (find_pos-Found hs slots (j + 1) j (omega arith)))
  ]
]

scan_entry-ne-zero :
    (s j h : ℕ) (hs : List ℕ) (pos : ℕ)
    → j ≢ 0
    → contains s (h ∷ hs) ≡ false
    → scan_entry s j (h ∷ hs) pos ≢ 0
scan_entry-ne-zero s j h hs zero nz c e = nz (sym (scan_entry-stale s j h hs c) ∙ e)
scan_entry-ne-zero s j h hs (suc pos) nz c e = elim (scan_entry-taken s j (h ∷ hs) (suc pos) c) [
  | inl same ↦ absurd (omega arith)
  | inr here ↦ absurd (omega arith)
]

-- If the search finds nothing, every entry is in the list.
pub find_pos-zero :
    (h : ℕ) (hs slots : List ℕ) (j pos : ℕ)
    → j ≢ 0
    → find_pos (h ∷ hs) j pos slots ≡ 0
    → (pos ≡ 0) × AllIn (h ∷ hs) slots
unfolding find_pos
find_pos-zero h hs [] j pos nz e = (e, tt)
find_pos-zero h hs (s ∷ slots) j pos nz e =
    let (z, a) = find_pos-zero h hs slots (j + 1) (scan_entry s j (h ∷ hs) pos) (omega arith) e in
    elim (Bool-cases (contains s (h ∷ hs))) [
      | inl live ↦ (sym (scan_entry-live s j (h ∷ hs) pos nz live) ∙ z, (live, a))
      | inr stale ↦ absurd (scan_entry-ne-zero s j h hs pos nz stale z)
    ]

find_pos-single :
    (h : ℕ) (slots : List ℕ) (j pos : ℕ)
    → contains h slots ≡ false
    → find_pos (h ∷ []) j pos slots ≡ (if length slots == 0 then pos else j + length slots - 1)
unfolding find_pos scan_entry contains
find_pos-single h [] j pos c = ground arith
find_pos-single h (s ∷ slots) j pos c = ground (arith, find_pos-single h slots (j + 1) j)

find_pos-taken :
    (h1 h2 : ℕ) (hs slots : List ℕ) (j pos : ℕ)
    → pos ≢ 0
    → find_pos (h1 ∷ h2 ∷ hs) j pos slots ≡ pos
unfolding find_pos scan_entry
find_pos-taken h1 h2 hs [] j pos nz = refl
find_pos-taken h1 h2 hs (s ∷ slots) j pos nz =
    ground (arith, find_pos-taken h1 h2 hs slots (j + 1) pos nz)

find_pos-append :
    (h1 h2 : ℕ) (hs : List ℕ) (s : ℕ) (after : List ℕ)
    → contains s (h1 ∷ h2 ∷ hs) ≡ false
    → (j : ℕ) (before : List ℕ) → j ≢ 0
    → AllIn (h1 ∷ h2 ∷ hs) before
    → find_pos (h1 ∷ h2 ∷ hs) j 0 (before ++ (s ∷ after)) ≡ length before + j
unfolding find_pos
find_pos-append h1 h2 hs s after c j [] nz all =
    ap (λ p. find_pos (h1 ∷ h2 ∷ hs) (j + 1) p after) (scan_entry-stale s j h1 (h2 ∷ hs) c)
    ∙ find_pos-taken h1 h2 hs after (j + 1) j nz
    ∙ omega arith
find_pos-append h1 h2 hs s after c j (x ∷ before) nz all =
    ap (λ p. find_pos (h1 ∷ h2 ∷ hs) (j + 1) p (before ++ (s ∷ after)))
      (scan_entry-live x j (h1 ∷ h2 ∷ hs) 0 nz all.0)
    ∙ find_pos-append h1 h2 hs s after c (j + 1) before (omega arith) all.1
    ∙ omega arith

-- With two adapters or more in the list the search of Update finds the first entry whose handle is
-- not in the list.
pub find_pos-first :
    (h1 h2 : ℕ) (hs before : List ℕ) (s : ℕ) (after : List ℕ)
    → AllIn (h1 ∷ h2 ∷ hs) before
    → contains s (h1 ∷ h2 ∷ hs) ≡ false
    → find_pos (h1 ∷ h2 ∷ hs) 1 0 (before ++ (s ∷ after)) ≡ length before + 1
find_pos-first h1 h2 hs before s after a c =
    find_pos-append h1 h2 hs s after c 1 before (omega arith) a

-- With a single adapter in the list, which the table does not hold, the search of Update finds the
-- last entry of the table.
pub find_pos-last :
    (h : ℕ) (slots : List ℕ)
    → contains h slots ≡ false
    → 0 < length slots
    → find_pos (h ∷ []) 1 0 slots ≡ length slots
find_pos-last h slots c lt = ground (arith, find_pos-single h slots 1 0 c)
