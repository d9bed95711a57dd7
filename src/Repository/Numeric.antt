-- ===== src/Repository/Numeric.antt =====
-- The columns NUMERIC(18,2) of migrations/002 and 003, and DECIMAL(15,2) of 009: a value is stored
-- in whole cents, rounded half away from zero. An amount is a count of tenths of a cent.
use insider_banking_project.Base.{ℕ, ◌+◌, ◌*◌, ◌-◌, ◌≡◌, suc, ◌==◌, refl, if◌then◌else◌, arith}
use insider_banking_project.Base.Int.{ℤ, pos, negsuc, ◌+ℤ◌, ◌-ℤ◌, ◌≤ℤ◌}
use insider_banking_project.Base.Dict.{Dict, lookup}
use insider_banking_project.Domain.Balance.{Balance}
use insider_banking_project.Domain.Total.{amount_at}
use Prim.Native.Nat.{◌/◌, ◌%◌}

abbrev pub cent : ℕ
cent = 10

abbrev pub to_nearest : ℕ → ℕ
to_nearest n = (n + 5) / cent * cent

abbrev pub minus : ℕ → ℤ
minus n = if n == 0 then pos 0 else negsuc (n - 1)

unfoldable pub to_numeric : ℤ → ℤ
to_numeric (pos n) = pos (to_nearest n)
to_numeric (negsuc n) = minus (to_nearest (suc n))

-- A whole number of cents.
abbrev pub IsWhole : ℤ → Type 0
IsWhole (pos n) = n % 10 ≡ 0
IsWhole (negsuc n) = suc n % 10 ≡ 0

-- The value is a whole number of cents at a distance of at most half a cent.
abbrev pub IsNearest : ℤ → ℤ → Type 0
IsNearest exact stored = IsWhole stored × (stored ≤ℤ exact +ℤ pos 5) × (exact ≤ℤ stored +ℤ pos 5)

pub to_numeric-IsNearest : (a : ℤ) → IsNearest a (to_numeric a)
unfolding to_numeric ◌+ℤ◌
to_numeric-IsNearest (pos n) = (ground arith, ground arith, ground arith)
to_numeric-IsNearest (negsuc n) = (ground arith, ground arith, ground arith)

-- The columns keep whole cents as they are.
pub to_numeric-IsWhole : (a : ℤ) → IsWhole a → to_numeric a ≡ a
unfolding to_numeric
to_numeric-IsWhole (pos n) p = ground arith
to_numeric-IsWhole (negsuc n) p = ground arith

pub IsWhole-plus : (a b : ℤ) → IsWhole a → IsWhole b → IsWhole (a +ℤ b)
unfolding ◌+ℤ◌
IsWhole-plus (pos m) (pos n) p q = ground arith
IsWhole-plus (pos m) (negsuc n) p q = ground arith
IsWhole-plus (negsuc m) (pos n) p q = ground arith
IsWhole-plus (negsuc m) (negsuc n) p q = ground arith

pub to_numeric-plus : (a b : ℤ) → IsWhole a → IsWhole b → to_numeric (a +ℤ b) ≡ a +ℤ b
to_numeric-plus a b p q = to_numeric-IsWhole (a +ℤ b) (IsWhole-plus a b p q)

pub IsWhole-minus : (a b : ℤ) → IsWhole a → IsWhole b → IsWhole (a -ℤ b)
unfolding ◌-ℤ◌
IsWhole-minus (pos m) (pos n) p q = ground arith
IsWhole-minus (pos m) (negsuc n) p q = ground arith
IsWhole-minus (negsuc m) (pos n) p q = ground arith
IsWhole-minus (negsuc m) (negsuc n) p q = ground arith

pub to_numeric-minus : (a b : ℤ) → IsWhole a → IsWhole b → to_numeric (a -ℤ b) ≡ a -ℤ b
to_numeric-minus a b p q = to_numeric-IsWhole (a -ℤ b) (IsWhole-minus a b p q)

pub IsWhole-zero : IsWhole (pos 0)
IsWhole-zero = refl

-- Every row of a table has whole cents, as one that was stored has.
abbrev pub AllWhole : Dict Balance → Type 0
AllWhole d = (k : ℕ) → IsWhole (amount_at (lookup k d))
