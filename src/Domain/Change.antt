-- ===== src/Domain/Change.antt =====
-- How one operation changes the table of balances.
use insider_banking_project.Base.{ℕ, ◌≡◌, ◌≢◌, some}
use insider_banking_project.Base.Int.{ℤ, ◌+ℤ◌, int_laws}
use insider_banking_project.Base.Dict.{Dict, lookup, insert, lookup-insert_self, lookup-insert_ne}
use insider_banking_project.Domain.Balance.{Balance}
use insider_banking_project.Domain.Total.{total, amount_at, total-insert}

-- The table after `amount` has been added to the row of user `u`, which was `row`.
pub record Added (u : ℕ) (row : Balance) (amount : ℤ) (before after : Dict Balance) : Type 0 where
  pub was : lookup u before ≡ some row
  pub now_there : amount_at (lookup u after) ≡ row.amount +ℤ amount
  pub others : (v : ℕ) → v ≢ u → lookup v after ≡ lookup v before
  pub money : total after ≡ total before +ℤ amount

pub written-Added :
    (u : ℕ) (row : Balance) (amount : ℤ) (b : Balance) (before : Dict Balance)
    → lookup u before ≡ some row
    → b.amount ≡ row.amount +ℤ amount
    → Added u row amount before (insert u b before)
written-Added u row amount b before was sum = record {
  was = was;
  now_there = rw (lookup-insert_self u b before) sum;
  others = λ v ne. lookup-insert_ne v u b before ne;
  money = grind (int_laws, total-insert u b before);
}
