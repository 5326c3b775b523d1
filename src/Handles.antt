-- ===== src/Handles.antt =====
-- CWow64Helper of ndisapi/ndisapi.cpp: the table that gives each 64-bit adapter handle of the
-- driver a number that a 32-bit process can hold. Each method runs under the lock of the singleton,
-- so it is one atomic function of the table.
pub mod Sets
pub mod Stale
pub mod Lookup
pub mod Update
pub mod Keeps
pub mod Tests
use ndisapi.Base.{
  ℕ, zero, suc, ◌+◌, ◌-◌, ◌^◌, Bool, true, false, ◌&&◌, Option, none, some, List, [], ◌∷◌, length,
  get_elem?, set, replicate, take, leb, ◌==◌, if◌then◌else◌,
}

abbrev pub adapter_list_size : ℕ
adapter_list_size = 32

-- m_Handle32to64: entry 0 says whether the table is in use, entries 1 to 32 are the slots.
pub record HandleTable : Type 0 where
  pub flag : ℕ
  pub slots : List ℕ

-- The table is zero-initialised.
abbrev pub empty : HandleTable
empty = record { flag = 0; slots = replicate 32 0 }

-- m_Handle32to64[handle]; `none` is a read outside the array.
pub from_32_to_64 : HandleTable → ℕ → Option ℕ
from_32_to_64 t zero = some t.flag
from_32_to_64 t (suc i) = get_elem? t.slots i

pub find_slot : ℕ → ℕ → List ℕ → ℕ
find_slot handle i [] = 0
find_slot handle i (s ∷ rest) = if s == handle then i else find_slot handle (i + 1) rest

-- The first entry, from 1 on, that holds the handle, or 0.
pub from_64_to_32 : HandleTable → ℕ → ℕ
unfolding find_slot
from_64_to_32 t handle = find_slot handle 1 t.slots

-- The search for an adapter in the table, and for an entry in the list.
pub contains : ℕ → List ℕ → Bool
contains h [] = false
contains h (x ∷ xs) = if x == h then true else contains h xs

-- The first call: the handles go to the entries from 1 on.
pub fill : List ℕ → List ℕ → List ℕ
fill [] slots = slots
fill (h ∷ hs) [] = []
fill (h ∷ hs) (s ∷ slots) = h ∷ fill hs slots

-- The loop over k for the entry `s` at `j`: leave at a match, set `pos` at the last element,
-- leave once `pos` is set.
pub scan_entry : ℕ → ℕ → List ℕ → ℕ → ℕ
scan_entry s j [] pos = pos
scan_entry s j (h ∷ []) pos = if s == h then pos else j
scan_entry s j (h ∷ (h2 ∷ hs)) pos =
    let rest = scan_entry s j (h2 ∷ hs) pos in
    if s == h then pos else if pos == 0 then rest else pos

-- The loop over j.
pub find_pos : List ℕ → ℕ → ℕ → List ℕ → ℕ
unfolding scan_entry
find_pos hs j pos [] = pos
find_pos hs j pos (s ∷ slots) = find_pos hs (j + 1) (scan_entry s j hs pos) slots

-- One round of the loop over i: an adapter that is not in the table takes the entry found.
pub place : List ℕ → List ℕ → ℕ → List ℕ
unfolding contains find_pos
place hs slots h =
    let pos = find_pos hs 1 0 slots in
    if contains h slots then slots else if pos == 0 then slots else set slots (pos - 1) h

pub place_all : List ℕ → List ℕ → List ℕ → List ℕ
unfolding place
place_all hs [] slots = slots
place_all hs (h ∷ rest) slots = place_all hs rest (place hs slots h)

-- Update, for the handles of the adapters that the list counts.
pub update_slots : HandleTable → List ℕ → HandleTable
unfolding fill place_all
update_slots t hs =
    if t.flag == 0
    then record { flag = 2 ^ 64 - 1; slots = fill hs t.slots }
    else record { flag = t.flag; slots = place_all hs hs t.slots }

-- Update, from m_nAdapterCount and m_nAdapterHandle. A count above the size of the arrays would
-- read and write outside them: `none`.
pub update : HandleTable → ℕ → List ℕ → Option HandleTable
unfolding update_slots
update t count handles =
    if leb count (length handles) && leb count adapter_list_size
    then some (update_slots t (take count handles))
    else none
