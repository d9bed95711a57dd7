-- ===== src/Repository/Balances.antt =====
-- internal/repository/balances.go: reading a balance, writing it, and adding to it inside a
-- database transaction.
use insider_banking_project.Base.{ℕ, ⊤, Option, none, some, if◌then◌else◌}
use insider_banking_project.Base.Int.{ℤ, pos, ◌+ℤ◌, ltb_ℤ}
use insider_banking_project.Base.Dict.{Dict, lookup, insert}
use insider_banking_project.Domain.Error.{plain}
use insider_banking_project.Domain.Balance.{Balance}
use insider_banking_project.Repository.World.{
  Env, ok, err, M, pure, fail, with_context, ◌>>=◌, call, time_now,
}
use insider_banking_project.Repository.Numeric.{to_numeric}
use insider_banking_project.Repository.Constraints.{balance_row_ok}

-- The rows of a query for one key: `pgx.ErrNoRows` is `none`.
abbrev pub select_balance : ℕ → M (Option Balance)
select_balance u w = (ok (lookup u w.db.balances), w)

-- What the caller makes of the row.
abbrev pub found_balance : Option Balance → M Balance
found_balance none = fail (plain "balance not found for user")
found_balance (some b) = pure b

abbrev pub put_balance : Balance → M ⊤
put_balance b w =
    (ok tt, record w { db = record (w.db) { balances = insert b.user_id b w.db.balances } })

module _ (e : Env) where
  -- `GetByUserID`
  unfoldable pub get_by_user_id : ℕ → M Balance
  get_by_user_id u = do
    row ← with_context "failed to get balance by user ID" (call e (select_balance u))
    found_balance row

  -- INSERT ... ON CONFLICT DO UPDATE, as the constraints allow.
  abbrev pub insert_balance : Balance → M ⊤
  insert_balance b w =
      if balance_row_ok w.db.users b then put_balance b w else (err (plain e.violation), w)

  -- `Upsert`
  unfoldable pub upsert : Balance → M ⊤
  upsert b = do
    now ← time_now e
    with_context "failed to upsert balance"
        (call e (insert_balance (record b { amount = to_numeric b.amount; last_updated_at = now })))

  -- A row written in the open transaction.
  abbrev pub put_in_tx : Dict Balance → ℕ → Balance → M ⊤
  put_in_tx t u b w =
      if balance_row_ok w.db.users b
      then (ok tt, record w { tx = some (insert u b t) })
      else (err (plain e.violation), w)

  -- The `UPDATE ... RETURNING amount` of `AddAmountTx`: no row, or the new amount.
  abbrev pub update_amount : Dict Balance → ℕ → ℤ → ℕ → M (Option ℤ)
  update_amount t u delta now w = elim (lookup u t) [
    | none ↦ (ok none, w)
    | some b ↦
        (put_in_tx t u (record b { amount = to_numeric (b.amount +ℤ delta); last_updated_at = now })
            >>= λ _. pure (some (to_numeric (b.amount +ℤ delta))))
          w
  ]

  -- The branches of `AddAmountTx` after the update: a missing row is created with the delta.
  abbrev pub finish_add : Dict Balance → ℕ → ℤ → ℕ → Option ℤ → M ⊤
  finish_add t u delta now none = with_context "failed to create balance" (
      call e (
        put_in_tx t u (record {
          user_id = u;
          amount = to_numeric delta;
          currency = "USD";
          last_updated_at = now;
        })))
  finish_add t u delta now (some new_amount) =
      if ltb_ℤ new_amount (pos 0)
      then fail (plain "insufficient funds: balance would be negative")
      else pure tt

  abbrev pub add_amount_in : Option (Dict Balance) → ℕ → ℤ → M ⊤
  add_amount_in none u delta = fail (plain "invalid transaction type")
  add_amount_in (some t) u delta = do
    now ← time_now e
    row ← with_context "failed to add amount to balance" (call e (update_amount t u delta now))
    finish_add t u delta now row

  -- `AddAmountTx`
  unfoldable pub add_amount_tx : ℕ → ℤ → M ⊤
  add_amount_tx u delta w = add_amount_in w.tx u delta w
