-- ===== src/Repository/Frames.antt =====
-- What each statement does to the tables, on every branch.
use insider_banking_project.Base.{sym, ap, ℕ, ◌+◌, ◌≡◌, inl, inr, true, some, arith, Option-cases}
use insider_banking_project.Base.Int.{ℤ, pos, ◌+ℤ◌, ◌≤ℤ◌, int_laws}
use insider_banking_project.Domain.Total.{amount_at}
use insider_banking_project.Base.Dict.{Dict, lookup, insert}
use insider_banking_project.Domain.Error.{Error}
use insider_banking_project.Domain.Balance.{Balance}
use insider_banking_project.Domain.User.{User}
use insider_banking_project.Domain.Transaction.{Transaction}
use insider_banking_project.Repository.World.{Env, World, ok, err}
use insider_banking_project.Repository.Numeric.{to_numeric}
use insider_banking_project.Repository.Constraints.{balance_row_ok}
use insider_banking_project.Repository.Balances.{get_by_user_id, upsert, add_amount_tx}
use insider_banking_project.Repository.Transactions.{get_by_id}

zero_plus : (a : ℤ) → pos 0 +ℤ a ≡ a
zero_plus a = omega int_laws

-- A row that the database takes is not below zero.
pub balance_row_ok_amount :
    (users : Dict User) (b : Balance) → balance_row_ok users b ≡ true → pos 0 ≤ℤ b.amount
unfolding balance_row_ok
balance_row_ok_amount users b h = ground arith

module _ (e : Env) where
  -- Reading a balance changes nothing, and gives the row of the table.
  pub get_by_user_id_row :
      (u : ℕ) (w : World) {b : Balance}
      → (get_by_user_id e u w).0 ≡ ok b
      → lookup u w.db.balances ≡ some b
  unfolding get_by_user_id
  get_by_user_id_row u w h = ground arith

  pub get_by_user_id_world :
      (u : ℕ) (w : World) → (get_by_user_id e u w).1 ≡ record w { tick = w.tick + 1 }
  unfolding get_by_user_id
  get_by_user_id_world u w = ground arith

  pub upsert_ok :
      (b : Balance) (w : World)
      → (upsert e b w).0 ≡ ok tt
      → ((upsert e b w).1.db ≡ record (w.db) {
        balances =
            insert b.user_id
              (record b { amount = to_numeric b.amount; last_updated_at = e.now w.tick })
              w.db.balances;
      })
        × (balance_row_ok w.db.users
              (record b { amount = to_numeric b.amount; last_updated_at = e.now w.tick })
            ≡ true)
  unfolding upsert
  upsert_ok b w h = ground arith

  pub upsert_err :
      (b : Balance) (w : World) {x : Error} → (upsert e b w).0 ≡ err x → (upsert e b w).1.db ≡ w.db
  unfolding upsert
  upsert_err b w h = ground arith

  pub upsert_frame :
      (b : Balance) (w : World) → ((upsert e b w).1.cache ≡ w.cache) × ((upsert e b w).1.tx ≡ w.tx)
  unfolding upsert
  upsert_frame b w = ground arith

  -- An addition that succeeds writes the sum into the open transaction, over a row or a new one.
  pub add_amount_tx_ok :
      (u : ℕ) (delta : ℤ) (w : World) (t : Dict Balance)
      → w.tx ≡ some t
      → (add_amount_tx e u delta w).0 ≡ ok tt
      → (b : Balance) × ((add_amount_tx e u delta w).1.tx ≡ some (insert u b t))
        × (b.amount ≡ to_numeric (amount_at (lookup u t) +ℤ delta))
        × ((c : Balance) → lookup u t ≡ some c → b.currency ≡ c.currency)
        × (pos 0 ≤ℤ b.amount)
  unfolding add_amount_tx
  add_amount_tx_ok u delta w t opened h = elim (Option-cases (lookup u t)) [
    | inl new ↦ (
      record {
        user_id = u;
        amount = to_numeric delta;
        currency = "USD";
        last_updated_at = e.now w.tick;
      },
      ground arith,
      rw new (ap to_numeric (sym (zero_plus delta))),
      λ c p. absurd (ground arith),
      ground (
        arith,
        balance_row_ok_amount w.db.users (record {
          user_id = u;
          amount = to_numeric delta;
          currency = "USD";
          last_updated_at = e.now w.tick;
        }),
      ),
    )
    | inr (c, p) ↦ (
      record c { amount = to_numeric (c.amount +ℤ delta); last_updated_at = e.now w.tick },
      ground arith,
      ground arith,
      λ c' p'. ground arith,
      ground (
        arith,
        balance_row_ok_amount w.db.users
            (record c { amount = to_numeric (c.amount +ℤ delta); last_updated_at = e.now w.tick }),
      ),
    )
  ]

  pub add_amount_tx_db : (u : ℕ) (delta : ℤ) (w : World) → (add_amount_tx e u delta w).1.db ≡ w.db
  unfolding add_amount_tx
  add_amount_tx_db u delta w = ground arith

  -- Reading a transaction gives the row of the table.
  pub get_by_id_row :
      (id : ℕ) (w : World) {t : Transaction}
      → (get_by_id e id w).0 ≡ ok t
      → lookup id w.db.transactions ≡ some t
  unfolding get_by_id
  get_by_id_row id w h = ground arith
