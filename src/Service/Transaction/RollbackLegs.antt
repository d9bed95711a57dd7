-- ===== src/Service/Transaction/RollbackLegs.antt =====
-- The two steps that every rollback is made of: reading a balance that may be missing, and
-- writing the new one.
use insider_banking_project.Base.{ℕ, ◌≡◌, refl, inl, inr, String, Option, none, some, arith}
use insider_banking_project.Base.Int.{ℤ, pos, ◌+ℤ◌, ◌≤ℤ◌, int_laws}
use insider_banking_project.Base.Dict.{Dict, lookup, insert}
use insider_banking_project.Domain.Error.{Error}
use insider_banking_project.Domain.Balance.{Balance}
use insider_banking_project.Domain.Total.{amount_at}
use insider_banking_project.Domain.Transaction.{Transaction}
use insider_banking_project.Repository.Numeric.{to_numeric}
use insider_banking_project.Repository.World.{Env, World, ok, err, Result-cases}
use insider_banking_project.Repository.Balances.{get_by_user_id, upsert}
use insider_banking_project.Repository.Frames.{balance_row_ok_amount, upsert_ok, upsert_err}
use insider_banking_project.Repository.Quiet.{Quiet, get_by_user_id-Quiet}
use insider_banking_project.Service.Transaction.Common.{is_not_found_error}
use insider_banking_project.Service.Transaction.Rollback.{
  balance_for_rollback, write_rollback, rollback_balance, plus_amount,
}

-- One row has been written, with the amount given in whole cents.
pub data Written (u : ℕ) (amount : ℤ) (before after : Dict Balance) : Type 0 where
  written :
      (b : Balance)
      → b.amount ≡ to_numeric amount
      → pos 0 ≤ℤ b.amount
      → after ≡ insert u b before
      → Written u amount before after

-- Adding to a row, or to zero where it is missing.
pub plus_amount_lem :
    (o : Option Balance) (amount : ℤ) → plus_amount o amount ≡ amount_at o +ℤ amount
plus_amount_lem none amount = omega int_laws
plus_amount_lem (some b) amount = refl

module _ (e : Env) where
  -- What is read is the row of the table, if there is one.
  pub balance_for_rollback_row :
      (s : String) (u : ℕ) (w : World) {o : Option Balance}
      → (balance_for_rollback e s u w).0 ≡ ok o
      → lookup u w.db.balances ≡ o
  unfolding balance_for_rollback get_by_user_id is_not_found_error
  balance_for_rollback_row s u w h = ground arith

  pub balance_for_rollback-Quiet :
      (s : String) (u : ℕ) (w : World) → Quiet w (balance_for_rollback e s u w).1
  unfolding balance_for_rollback
  balance_for_rollback-Quiet s u w = ground (arith, get_by_user_id-Quiet e u w)

  pub write_rollback-Written :
      (negative failed : String) (u : ℕ) (amount : ℤ) (t : Transaction) (w : World)
      → (write_rollback e negative failed u amount t w).0 ≡ ok tt
      → Written u amount w.db.balances (write_rollback e negative failed u amount t w).1.db.balances
  unfolding write_rollback
  write_rollback-Written negative failed u amount t w h =
      let row = record (rollback_balance u amount t) {
        amount = to_numeric amount;
        last_updated_at = e.now w.tick;
      } in
      let ok_upsert = upsert_ok e (rollback_balance u amount t) w (ground arith) in
      written row refl (balance_row_ok_amount w.db.users row ok_upsert.1)
        (ground (arith, ok_upsert))

  pub write_rollback_err :
      (negative failed : String) (u : ℕ) (amount : ℤ) (t : Transaction) (w : World) {x : Error}
      → (write_rollback e negative failed u amount t w).0 ≡ err x
      → (write_rollback e negative failed u amount t w).1.db.balances ≡ w.db.balances
  unfolding write_rollback
  write_rollback_err negative failed u amount t w {x} h =
      elim (Result-cases (upsert e (rollback_balance u amount t) w).0) [
        | inl (_, p) ↦ ground arith
        | inr (y, p) ↦ ground (arith, upsert_err e (rollback_balance u amount t) w p)
      ]
