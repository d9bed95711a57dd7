-- ===== src/Domain/Total.antt =====
-- The money of the bank: the sum of the amounts of a table of balances.
use insider_banking_project.Base.{ℕ, ◌≡◌, Option, none, some, [], ◌∷◌, arith}
use insider_banking_project.Base.Int.{ℤ, pos, ◌+ℤ◌, ◌≤ℤ◌, int_laws}
use insider_banking_project.Base.Dict.{Dict, lookup, insert}
use insider_banking_project.Domain.Balance.{Balance}

pub total : Dict Balance → ℤ
total [] = pos 0
total ((k, b) ∷ d) = b.amount +ℤ total d

-- What a key holds; nothing counts as zero.
abbrev pub amount_at : Option Balance → ℤ
amount_at none = pos 0
amount_at (some b) = b.amount

-- Writing a row moves the total by the difference from the old row.
pub total-insert :
    (k : ℕ) (b : Balance) (d : Dict Balance)
    → total (insert k b d) +ℤ amount_at (lookup k d) ≡ total d +ℤ b.amount
unfolding total lookup insert
total-insert k b [] = omega int_laws
total-insert k b ((j, c) ∷ d) = grind (int_laws, total-insert k b d)

-- No row is below zero.
abbrev pub IsSolvent : Dict Balance → Type 0
IsSolvent [] = Unit {0}
IsSolvent ((k, b) ∷ d) = (pos 0 ≤ℤ b.amount) × IsSolvent d

pub insert-IsSolvent :
    (k : ℕ) (b : Balance) (d : Dict Balance)
    → IsSolvent d
    → pos 0 ≤ℤ b.amount
    → IsSolvent (insert k b d)
unfolding insert
insert-IsSolvent k b [] h p = (p, tt)
insert-IsSolvent k b ((j, c) ∷ d) h p = ground (arith, insert-IsSolvent k b d h.1 p)
