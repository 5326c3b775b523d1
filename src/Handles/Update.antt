-- ===== src/Handles/Update.antt =====
-- The loop of Update over the adapters of the list.
use ndisapi.Base.{
  ℕ, ◌+◌, ◌-◌, ◌≤◌, ◌<◌, ◌≡◌, ◌≢◌, ◌∙◌, sym, refl, ap, true, false, List, [], ◌∷◌, arith, length,
  get_or, set, length-set, get_or-set_ne, Bool-cases, inl, inr, ◌==◌, if◌then◌else◌,
}
use ndisapi.Handles.{contains, find_pos, place, place_all}
use ndisapi.Handles.Sets.{
  DistinctUsed, AllIn, pigeonhole, contains-get_or, index_of, contains-set_self, DistinctUsed-set,
  DistinctUsed-Distinct,
}
use ndisapi.Handles.Stale.{find_pos-Found, find_pos-zero}

-- What became of the slots, for the adapters in `done`.
pub record Placed (hs done slots slots' : List ℕ) : Type 0 where
  pub same_size : length slots' ≡ length slots
  pub distinct : DistinctUsed slots'
  pub present : AllIn slots' done
  pub kept :
      (k : ℕ)
      → k < length slots
      → contains (get_or slots k 0) hs ≡ true
      → get_or slots' k 0 ≡ get_or slots k 0

-- A list of adapters leaves room: while one of them is not in the table, some entry is stale.
room :
    (h : ℕ) (hs slots : List ℕ)
    → contains h hs ≡ true
    → contains 0 hs ≡ false
    → length hs ≤ length slots
    → DistinctUsed slots
    → contains h slots ≡ false
    → find_pos hs 1 0 slots ≢ 0
unfolding contains
room h [] slots m z le d c e = cc
room h (x ∷ hs) slots m z le d c e =
    let all = (find_pos-zero x hs slots 1 0 (omega arith) e).1 in
    absurd (
      omega (
        arith,
        pigeonhole (h ∷ slots) (x ∷ hs) (c, DistinctUsed-Distinct slots (x ∷ hs) z all d) (m, all),
      ))

-- The entry that is written held a stale handle.
set-Placed :
    (hs slots : List ℕ) (h k : ℕ)
    → DistinctUsed slots
    → contains h slots ≡ false
    → k < length slots
    → contains (get_or slots k 0) hs ≡ false
    → Placed hs (h ∷ []) slots (set slots k h)
set-Placed hs slots h k d new lt stale = record {
  same_size = length-set slots k h;
  distinct = DistinctUsed-set slots k h new d;
  present = (contains-set_self slots k h lt, tt);
  kept = λ j _ live.
      get_or-set_ne slots k j h 0 (λ e. cc (ap (λ t. contains (get_or slots t 0) hs) e));
}

place-Placed :
    (hs slots : List ℕ) (h : ℕ)
    → contains h hs ≡ true
    → contains 0 hs ≡ false
    → length hs ≤ length slots
    → DistinctUsed slots
    → Placed hs (h ∷ []) slots (place hs slots h)
unfolding place
place-Placed hs slots h m z le d = elim (Bool-cases (contains h slots)) [
  | inl old ↦
      rw old
        (record { same_size = refl; distinct = d; present = (old, tt); kept = λ k lt live. refl })
  | inr new ↦ rw new (elim (find_pos-Found hs slots 1 0 (omega arith)) [
    | inl none ↦ absurd (room h hs slots m z le d new none)
    | inr (k, e, lt, stale) ↦ rw (written k e) (set-Placed hs slots h k d new lt stale)
  ])
]
  where
    written :
        (k : ℕ)
        → find_pos hs 1 0 slots ≡ 1 + k
        → (if find_pos hs 1 0 slots == 0 then slots else set slots (find_pos hs 1 0 slots - 1) h)
          ≡ set slots k h
    written k e = ground arith

AllIn-kept :
    (hs done slots slots' : List ℕ)
    → AllIn hs done
    → AllIn slots done
    → length slots' ≡ length slots
    → ((k : ℕ)
        → k < length slots
        → contains (get_or slots k 0) hs ≡ true
        → get_or slots' k 0 ≡ get_or slots k 0)
    → AllIn slots' done
AllIn-kept hs [] slots slots' live there size kept = tt
AllIn-kept hs (x ∷ done) slots slots' live there size kept =
    let (k, lt, g) = index_of x slots there.0 in
    let same : get_or slots' k 0 ≡ x = kept k lt (ap (λ t. contains t hs) g ∙ live.0) ∙ g in
    (
      ap (λ t. contains t slots') (sym same) ∙ contains-get_or slots' k (omega arith),
      AllIn-kept hs done slots slots' live.1 there.1 size kept,
    )

pub place_all-Placed :
    (hs todo slots : List ℕ)
    → AllIn hs todo
    → contains 0 hs ≡ false
    → length hs ≤ length slots
    → DistinctUsed slots
    → Placed hs todo slots (place_all hs todo slots)
unfolding place_all
place_all-Placed hs [] slots m z le d = record {
  same_size = refl;
  distinct = d;
  present = tt;
  kept = λ k lt live. refl;
}
place_all-Placed hs (h ∷ todo) slots m z le d =
    let slots1 = place hs slots h in
    let one = place-Placed hs slots h m.0 z le d in
    let rest = place_all-Placed hs todo slots1 m.1 z (omega (arith, one.same_size)) one.distinct in
    record {
      same_size = rest.same_size ∙ one.same_size;
      distinct = rest.distinct;
      present = (
        (AllIn-kept hs (h ∷ []) slots1 (place_all hs todo slots1) (m.0, tt) one.present
            rest.same_size rest.kept).0,
        rest.present,
      );
      kept = λ k lt live.
          rest.kept k (omega (arith, one.same_size))
            (ap (λ t. contains t hs) (one.kept k lt live) ∙ live)
          ∙ one.kept k lt live;
    }
