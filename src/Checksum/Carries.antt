-- ===== src/Checksum/Carries.antt =====
-- The loop that folds the carries of a 32-bit sum into 16 bits, and the complement after it.
use ndisapi.Base.{ℕ, ◌+◌, ◌-◌, ◌%◌, ◌^◌, ◌<◌, ◌≡◌, some, arith, ◌==◌, if◌then◌else◌}
use ndisapi.Checksum.{fold_carries, complement}

-- The one's-complement value of a sum: its residue modulo 65535, with 65535 for a positive multiple.
abbrev pub residue : ℕ → ℕ
residue sum = if sum == 0 then 0 else (sum - 1) % 65535 + 1

-- On a 32-bit sum the loop that folds the carries ends within the fuel 3, with the ones' complement
-- residue of the sum.
pub fold_carries_lem : (sum : ℕ) → sum < 2 ^ 32 → fold_carries 3 sum ≡ some (residue sum)
unfolding fold_carries
fold_carries_lem sum h = ground arith

pub residue-complement : (sum : ℕ) → sum < 2 ^ 32 → residue (sum + complement (residue sum)) ≡ 65535
unfolding complement
residue-complement sum h = ground arith

pub complement-lt : (sum : ℕ) → complement sum < 2 ^ 16
unfolding complement
complement-lt sum = omega arith

pub residue-lt : (sum : ℕ) → residue sum < 2 ^ 16
residue-lt sum = ground arith
