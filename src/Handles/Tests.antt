-- ===== src/Handles/Tests.antt =====
-- A table with two adapters, and the theorems of the table on it.
use ndisapi.Base.{
  ℕ, ◌-◌, ◌^◌, ◌≤◌, ◌<◌, ◌≡◌, refl, true, some, List, [], ◌∷◌, replicate, arith, take, length,
}
use ndisapi.Handles.{HandleTable, contains, find_pos, from_32_to_64, from_64_to_32, update}
use ndisapi.Handles.Sets.{DistinctUsed-zeros}
use ndisapi.Handles.Lookup.{from_32_to_64-from_64_to_32, from_64_to_32-from_32_to_64}
use ndisapi.Handles.Stale.{find_pos-first, find_pos-last}
use ndisapi.Handles.Keeps.{IsValid, IsAdapterList, Updated, update-Updated, from_64_to_32-update}

-- Handles of the driver; the low halves are 33 and 34.
abbrev pub adapter1 : ℕ
adapter1 = 0x100000021

abbrev pub adapter2 : ℕ
adapter2 = 0x100000022

abbrev pub two_adapters : List ℕ
two_adapters = adapter1 ∷ adapter2 ∷ []

-- m_nAdapterHandle after the second adapter came: its other elements are zero.
abbrev pub two_handles : List ℕ
two_handles = adapter2 ∷ adapter1 ∷ replicate 30 0

-- The table after an Update with the two adapters.
abbrev pub two_table : HandleTable
two_table = record { flag = 2 ^ 64 - 1; slots = adapter1 ∷ adapter2 ∷ replicate 30 0 }

pub two_table-IsValid : IsValid two_table
unfolding contains
two_table-IsValid = record {
  size = refl;
  distinct = (λ _. refl, ((λ _. refl), DistinctUsed-zeros 30));
  fresh = λ e. absurd (omega arith);
}

pub two_handles-IsAdapterList : IsAdapterList (take 2 two_handles)
unfolding contains
two_handles-IsAdapterList = record {
  fits = omega arith;
  distinct = (refl, (refl, tt));
  no_null = refl;
}

pub two_table-unused : contains 0 two_table.slots ≡ true
unfolding contains
two_table-unused = refl

pub two_table-first : from_32_to_64 two_table 1 ≡ some adapter1
unfolding from_32_to_64
two_table-first = refl

update-Updated_example :
    (t' : HandleTable) × (update two_table 2 two_handles ≡ some t')
    × Updated (take 2 two_handles) two_table t'
update-Updated_example =
    update-Updated two_table 2 two_handles two_table-IsValid (omega arith) two_handles-IsAdapterList

from_64_to_32-update_example :
    (t' : HandleTable) × (update two_table 2 two_handles ≡ some t')
    × (from_64_to_32 t' adapter1 ≡ from_64_to_32 two_table adapter1)
    × (from_32_to_64 t' (from_64_to_32 two_table adapter1) ≡ some adapter1)
unfolding contains
from_64_to_32-update_example =
    from_64_to_32-update two_table 2 two_handles adapter1 two_table-IsValid (omega arith)
      two_handles-IsAdapterList refl refl

find_pos-last_example : find_pos (adapter1 ∷ []) 1 0 (7 ∷ 8 ∷ 9 ∷ []) ≡ 3
unfolding contains
find_pos-last_example = find_pos-last adapter1 (7 ∷ 8 ∷ 9 ∷ []) refl (omega arith)

from_32_to_64-from_64_to_32_example :
    (0 < from_64_to_32 two_table adapter2)
    × (from_64_to_32 two_table adapter2 ≤ length two_table.slots)
    × (from_32_to_64 two_table (from_64_to_32 two_table adapter2) ≡ some adapter2)
unfolding contains
from_32_to_64-from_64_to_32_example = from_32_to_64-from_64_to_32 two_table adapter2 refl

from_64_to_32-from_32_to_64_example : from_64_to_32 two_table adapter1 ≡ 1
from_64_to_32-from_32_to_64_example =
    from_64_to_32-from_32_to_64 two_table 1 adapter1 two_table-IsValid.distinct (omega arith)
      (omega arith) two_table-first

find_pos-first_example : find_pos two_adapters 1 0 (adapter2 ∷ 8 ∷ 9 ∷ []) ≡ 2
unfolding contains
find_pos-first_example =
    find_pos-first adapter1 adapter2 [] (adapter2 ∷ []) 8 (9 ∷ []) (refl, tt) refl
