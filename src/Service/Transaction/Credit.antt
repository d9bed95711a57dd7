-- ===== src/Service/Transaction/Credit.antt =====
-- `CreditSync`, which `Credit` calls: money is added to a user's balance.
use insider_banking_project.Base.{ℕ, str_eq, none, some, [], ◌∷◌, if◌then◌else◌}
use insider_banking_project.Base.Int.{pos, ◌+ℤ◌}
use insider_banking_project.Domain.Error.{plain, wrap}
use insider_banking_project.Domain.Balance.{Balance, BalanceResponse}
use insider_banking_project.Domain.Transaction.{
  Transaction, CreditRequest, TransactionResponse, transaction_to_response, credit_request_validate,
  type_credit, status_pending,
}
use insider_banking_project.Domain.Event.{id_detail, amount_detail}
use insider_banking_project.Repository.World.{
  Env, Result, ok, err, M, pure, ignore, attempt, of_result, check, on_error, with_context, ◌>>=◌,
  ◌>>◌,
}
use insider_banking_project.Repository.Balances.{upsert}
use insider_banking_project.Repository.Transactions.{create_pending, mark_completed, mark_failed}
use insider_banking_project.Service.Balance.{get_current}
use insider_banking_project.Service.Transaction.Common.{Service, is_not_found_error, after_success}

-- The balance to add to: what `GetCurrent` gave, or an empty one if it says "not found".
unfoldable pub credit_base : ℕ → CreditRequest → Result BalanceResponse → Result Balance
credit_base u req (ok r) =
    if str_eq r.currency req.currency
    then ok (record {
      user_id = r.user_id;
      amount = r.amount;
      currency = r.currency;
      last_updated_at = 0;
    })
    else err (plain "currency mismatch")
credit_base u req (err x) =
    if is_not_found_error x
    then ok (record { user_id = u; amount = pos 0; currency = req.currency; last_updated_at = 0 })
    else err (wrap "failed to get current balance" x)

-- The record that the credit creates.
abbrev pub credit_record : ℕ → CreditRequest → Transaction
credit_record u req = record {
  id = 0;
  from_user_id = none;
  to_user_id = some u;
  amount = req.amount;
  currency = req.currency;
  type = type_credit;
  status = status_pending;
  created_at = 0;
}

abbrev pub credited : ℕ → CreditRequest → Balance → Balance
credited u req current = record {
  user_id = u;
  amount = current.amount +ℤ req.amount;
  currency = req.currency;
  last_updated_at = 0;
}

module _ (e : Env) (s : Service) where
  -- From the creation of the record to the end of the credit.
  unfoldable pub credit_write : ℕ → CreditRequest → Balance → M TransactionResponse
  credit_write u req current = do
    t ← with_context "failed to create transaction" (create_pending e (credit_record u req))
    on_error (ignore (mark_failed e t.id))
        (with_context "failed to update balance" (upsert e (credited u req current)))
    with_context "failed to mark transaction completed" (mark_completed e t.id)
    after_success e s (u ∷ []) t "credit"
        (("user_id", id_detail u) ∷ ("amount", amount_detail req.amount) ∷ [])
    pure (transaction_to_response t)

  -- `CreditSync`
  unfoldable pub credit_sync : ℕ → CreditRequest → M TransactionResponse
  credit_sync u req = do
    check "invalid credit request" (credit_request_validate req)
    found ← attempt (get_current e s.has_cache u)
    current ← of_result (credit_base u req found)
    credit_write u req current
