-- ===== src/Service/Transaction/Rollback.antt =====
-- `RollbackSync`, `RollbackByAdmin` and `rollbackTransaction`: a completed transaction is reversed
-- by a new one.
use insider_banking_project.Base.{
  ℕ, ⊤, Bool, false, not, String, str_eq, Option, none, some, [], ◌∷◌, ◌==◌, if◌then◌else◌,
}
use insider_banking_project.Base.Int.{ℤ, pos, ◌+ℤ◌, ◌-ℤ◌, ltb_ℤ}
use insider_banking_project.Domain.Error.{wrap}
use insider_banking_project.Domain.Balance.{Balance}
use insider_banking_project.Domain.Transaction.{
  Transaction, TransactionResponse, transaction_to_response, type_credit, type_debit, type_transfer,
  status_pending, status_success,
}
use insider_banking_project.Domain.Event.{id_detail, amount_detail}
use insider_banking_project.Repository.World.{
  Env, Result, ok, err, M, pure, fail, ignore, attempt, guard, when, on_error, with_context, ◌>>=◌,
  ◌>>◌,
}
use insider_banking_project.Repository.Balances.{get_by_user_id, upsert}
use insider_banking_project.Repository.Transactions.{
  create_pending, mark_completed, mark_failed, get_by_id,
}
use insider_banking_project.Repository.Cache.{
  cache_transaction, invalidate_transaction_cache, invalidate_balance_cache,
  invalidate_transaction_history_cache,
}
use insider_banking_project.Repository.Journal.{audit_log}
use insider_banking_project.Service.Transaction.Common.{
  Service, is_not_found_error, increment_transaction_counter,
}

-- The type, the sender and the receiver of the reversing transaction; another type of the original
-- leaves the zero values.
unfoldable pub rollback_plan : Transaction → String × Option ℕ × Option ℕ
rollback_plan t =
    if str_eq t.type type_credit
    then (type_debit, t.to_user_id, none)
    else if str_eq t.type type_debit
    then (type_credit, none, t.from_user_id)
    else if str_eq t.type type_transfer
    then (type_transfer, t.to_user_id, t.from_user_id)
    else ("", none, none)

abbrev pub rollback_record : Transaction → Transaction
rollback_record t = record {
  id = 0;
  from_user_id = (rollback_plan t).1;
  to_user_id = (rollback_plan t).2;
  amount = t.amount;
  currency = t.currency;
  type = (rollback_plan t).0;
  status = status_pending;
  created_at = 0;
}

-- A row of the user in the original's currency.
abbrev pub rollback_balance : ℕ → ℤ → Transaction → Balance
rollback_balance u amount t = record {
  user_id = u;
  amount = amount;
  currency = t.currency;
  last_updated_at = 0;
}

-- The amount of a balance that may be missing.
abbrev pub plus_amount : Option Balance → ℤ → ℤ
plus_amount none amount = amount
plus_amount (some b) amount = b.amount +ℤ amount

module _ (e : Env) where
  abbrev pub found_or_missing : String → Result Balance → M (Option Balance)
  found_or_missing s (ok b) = pure (some b)
  found_or_missing s (err x) = if is_not_found_error x then pure none else fail (wrap s x)

  -- `GetByUserID`, where "not found" is no error.
  unfoldable pub balance_for_rollback : String → ℕ → M (Option Balance)
  balance_for_rollback s u = attempt (get_by_user_id e u) >>= found_or_missing s

  -- Write the new amount, unless it is negative.
  unfoldable pub write_rollback : String → String → ℕ → ℤ → Transaction → M ⊤
  write_rollback negative failed u amount t = do
    guard (not (ltb_ℤ amount (pos 0))) negative
    with_context failed (upsert e (rollback_balance u amount t))

  -- case TypeCredit: add money to the user.
  unfoldable pub rollback_credit : ℕ → Transaction → Option ℕ → M ⊤
  rollback_credit id t none = pure tt
  rollback_credit id t (some v) = on_error (ignore (mark_failed e id)) (do
    current ← balance_for_rollback "failed to get balance for rollback" v
    write_rollback "rollback would result in negative balance" "failed to rollback credit" v
        (plus_amount current t.amount) t)

  abbrev pub debit_found : ℕ → Transaction → Option Balance → String → String → M ⊤
  debit_found u t none negative failed = pure tt
  debit_found u t (some b) negative failed =
      write_rollback negative failed u (b.amount -ℤ t.amount) t

  -- case TypeDebit: remove money from the user, if there is a balance.
  unfoldable pub rollback_debit : ℕ → Transaction → Option ℕ → M ⊤
  rollback_debit id t none = pure tt
  rollback_debit id t (some u) = on_error (ignore (mark_failed e id)) (do
    current ← balance_for_rollback "failed to get balance for rollback" u
    debit_found u t current "rollback would result in negative balance" "failed to rollback debit")

  -- Write back the recipient's balance as it was.
  abbrev pub restore : Option Balance → M ⊤
  restore none = pure tt
  restore (some b) = ignore (upsert e b)

  -- case TypeTransfer: money goes back from the recipient to the sender.
  unfoldable pub rollback_transfer : ℕ → Transaction → Option ℕ → Option ℕ → M ⊤
  rollback_transfer id t none to = pure tt
  rollback_transfer id t (some u) none = pure tt
  rollback_transfer id t (some u) (some v) = on_error (ignore (mark_failed e id)) (do
    recipient ← balance_for_rollback "failed to get recipient balance for rollback" u
    debit_found u t recipient "transfer rollback would result in negative balance for recipient"
        "failed to rollback transfer (debit recipient)"
    on_error (restore recipient) (do
      sender ← balance_for_rollback "failed to get sender balance for rollback" v
      write_rollback "transfer rollback would result in negative balance for sender"
          "failed to rollback transfer (credit sender)" v (plus_amount sender t.amount) t))

  -- The switch on the rollback's type.
  unfoldable pub execute_rollback : ℕ → Transaction → M ⊤
  execute_rollback id t w =
      let (type, sender, receiver) = rollback_plan t in
      if str_eq type type_credit
      then rollback_credit id t receiver w
      else if str_eq type type_debit
      then rollback_debit id t sender w
      else if str_eq type type_transfer
      then rollback_transfer id t sender receiver w
      else (ok tt, w)

-- Only the sender of the original may roll it back.
abbrev pub may_roll_back : Option ℕ → ℕ → Bool
may_roll_back none requesting_user = false
may_roll_back (some u) requesting_user = u == requesting_user

module _ (e : Env) (s : Service) where
  abbrev pub forget_user : Option ℕ → M ⊤
  forget_user none = pure tt
  forget_user (some u) =
      ignore (invalidate_balance_cache e u) >> ignore (invalidate_transaction_history_cache e u)

  -- The cache after a rollback. The sender of a credit and the receiver of a debit are nil.
  unfoldable pub rollback_refresh_cache : Transaction → Transaction → M ⊤
  rollback_refresh_cache t original = ignore (
      when s.has_cache (do
        ignore (forget_user t.from_user_id)
        ignore (forget_user t.to_user_id)
        ignore (cache_transaction e t)
        ignore (invalidate_transaction_cache e original.id)))

  unfoldable pub rollback_finish : Transaction → Transaction → ℕ → M TransactionResponse
  rollback_finish t original requesting_user = do
    with_context "failed to mark rollback completed" (mark_completed e t.id)
    rollback_refresh_cache t original
    ignore (
        audit_log e "transaction" t.id "rollback" (
          ("original_transaction_id", id_detail original.id)
          ∷ ("user_id", id_detail requesting_user)
          ∷ ("amount", amount_detail original.amount)
          ∷ []))
    increment_transaction_counter e s
    pure (transaction_to_response t)

  -- `rollbackTransaction`
  unfoldable pub rollback_transaction : Transaction → ℕ → M TransactionResponse
  rollback_transaction original requesting_user = do
    t ←
        with_context "failed to create rollback transaction"
          (create_pending e (rollback_record original))
    execute_rollback e t.id original
    rollback_finish t original requesting_user

  -- `RollbackSync`
  unfoldable pub rollback_sync : ℕ → ℕ → M TransactionResponse
  rollback_sync transaction_id requesting_user = do
    original ← with_context "failed to get original transaction" (get_by_id e transaction_id)
    guard (str_eq original.status status_success) "can only rollback completed transactions"
    guard (may_roll_back original.from_user_id requesting_user)
        "access denied: you don't have permission to rollback this transaction"
    rollback_transaction original requesting_user

  -- `RollbackByAdmin`
  unfoldable pub rollback_by_admin : ℕ → M TransactionResponse
  rollback_by_admin transaction_id = do
    original ← with_context "failed to get original transaction" (get_by_id e transaction_id)
    guard (str_eq original.status status_success) "can only rollback completed transactions"
    rollback_transaction original 0
