-- ===== src/Service/Transaction/Debit.antt =====
-- `DebitSync`, which `Debit` calls: money is taken from a user's balance.
use insider_banking_project.Base.{ℕ, not, str_eq, none, some, [], ◌∷◌}
use insider_banking_project.Base.Int.{◌-ℤ◌, ltb_ℤ}
use insider_banking_project.Domain.Balance.{Balance, BalanceResponse}
use insider_banking_project.Domain.Transaction.{
  Transaction, DebitRequest, TransactionResponse, transaction_to_response, debit_request_validate,
  type_debit, status_pending,
}
use insider_banking_project.Domain.Event.{id_detail, amount_detail}
use insider_banking_project.Repository.World.{
  Env, M, pure, ignore, check, guard, on_error, with_context, ◌>>=◌, ◌>>◌,
}
use insider_banking_project.Repository.Balances.{upsert}
use insider_banking_project.Repository.Transactions.{create_pending, mark_completed, mark_failed}
use insider_banking_project.Service.Balance.{get_current}
use insider_banking_project.Service.Transaction.Common.{Service, after_success}

-- The record that the debit creates.
abbrev pub debit_record : ℕ → DebitRequest → Transaction
debit_record u req = record {
  id = 0;
  from_user_id = some u;
  to_user_id = none;
  amount = req.amount;
  currency = req.currency;
  type = type_debit;
  status = status_pending;
  created_at = 0;
}

abbrev pub debited : ℕ → DebitRequest → BalanceResponse → Balance
debited u req balance = record {
  user_id = u;
  amount = balance.amount -ℤ req.amount;
  currency = balance.currency;
  last_updated_at = 0;
}

module _ (e : Env) (s : Service) where
  -- From the creation of the record to the end of the debit.
  unfoldable pub debit_write : ℕ → DebitRequest → BalanceResponse → M TransactionResponse
  debit_write u req balance = do
    t ← with_context "failed to create transaction" (create_pending e (debit_record u req))
    on_error (ignore (mark_failed e t.id))
        (with_context "failed to update balance" (upsert e (debited u req balance)))
    with_context "failed to mark transaction completed" (mark_completed e t.id)
    after_success e s (u ∷ []) t "debit"
        (("user_id", id_detail u) ∷ ("amount", amount_detail req.amount) ∷ [])
    pure (transaction_to_response t)

  -- `DebitSync`
  unfoldable pub debit_sync : ℕ → DebitRequest → M TransactionResponse
  debit_sync u req = do
    check "invalid debit request" (debit_request_validate req)
    balance ← with_context "failed to get current balance" (get_current e s.has_cache u)
    guard (str_eq balance.currency req.currency) "currency mismatch"
    guard (not (ltb_ℤ balance.amount req.amount)) "insufficient funds"
    debit_write u req balance
