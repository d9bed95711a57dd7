-- ===== src/Http/Transactions.antt =====
-- internal/api/v1/balances.go: the handlers that credit, debit, transfer, read and roll back. A
-- body is what decoding its JSON gives, if that succeeds. The services' `Credit`, `Debit`,
-- `Transfer` and `Rollback` only call the functions named ...Sync.
use insider_banking_project.Base.{
  ℕ, Bool, String, str_eq, Option, none, some, List, if◌then◌else◌, ltb, length,
}
use insider_banking_project.Domain.Error.{Error, plain, codes, codes_eq, message}
use insider_banking_project.Domain.Balance.{BalanceResponse}
use insider_banking_project.Domain.Transaction.{
  CreditRequest, DebitRequest, TransferRequest, TransactionResponse,
}
use insider_banking_project.Repository.World.{Env, World, M, Result, ok, err}
use insider_banking_project.Rbac.{is_admin}
use insider_banking_project.Service.Balance.{get_current}
use insider_banking_project.Service.Transaction.Common.{Service}
use insider_banking_project.Service.Transaction.Credit.{credit_sync}
use insider_banking_project.Service.Transaction.Debit.{debit_sync}
use insider_banking_project.Service.Transaction.Transfer.{transfer_sync}
use insider_banking_project.Service.Transaction.Queries.{get_transaction}
use insider_banking_project.Service.Transaction.Rollback.{rollback_sync, rollback_by_admin}
use insider_banking_project.Auth.Tokens.{Claims, JwtManager}
use insider_banking_project.Http.Authentication.{auth_middleware}
use insider_banking_project.Http.Reply.{
  Reply, Handler, success, failure, refused, respond_with, respond_created, as_user, behind,
  split_path, part,
}

abbrev pub has_text : Error → String → Bool
has_text x s = codes_eq (message x) (codes s)

-- The reply to `GetByID`
abbrev pub respond_found : Result TransactionResponse → Reply TransactionResponse
respond_found (ok t) = success 200 t
respond_found (err x) =
    if has_text x "access denied: you don't have permission to view this transaction"
    then failure 403 (plain "Access denied: you don't have permission to view this transaction")
    else failure 404 (plain "Transaction not found")

-- The reply to a rollback
abbrev pub respond_rollback : Result TransactionResponse → Reply TransactionResponse
respond_rollback (ok t) = success 201 t
respond_rollback (err x) =
    if has_text x "access denied: you don't have permission to rollback this transaction"
    then failure 403 (plain "Access denied: you don't have permission to rollback this transaction")
    else if has_text x "can only rollback completed transactions"
    then failure 400 (plain "Can only rollback completed transactions")
    else failure 400 x

abbrev pub or_usd : BalanceResponse → BalanceResponse
or_usd b = record b { currency = if str_eq b.currency "" then "USD" else b.currency }

abbrev pub respond_balance : Result BalanceResponse → Reply BalanceResponse
respond_balance (ok b) = success 200 (or_usd b)
respond_balance (err x) = failure 500 (plain "Failed to get balance")

-- `IsAdmin`, on the claims in the request's context
abbrev pub caller_is_admin : Option Claims → Bool
caller_is_admin none = is_admin none
caller_is_admin (some c) = is_admin (some (record { user_id = c.user_id; role = c.role }))

module _ {A : Type 0} where
  abbrev pub with_body : {R : Type 0} → Option R → (R → Handler World A) → Handler World A
  with_body none k = refused 400 "Invalid JSON request body"
  with_body (some r) k = k r

  abbrev pub with_transaction_id : Option ℕ → (ℕ → Handler World A) → Handler World A
  with_transaction_id none k = refused 400 "Invalid transaction ID format"
  with_transaction_id (some id) k = k id

  abbrev pub with_segment :
      (String → Option ℕ) → Option String → (ℕ → Handler World A) → Handler World A
  with_segment parse_uuid none k = refused 400 "Transaction ID is required"
  with_segment parse_uuid (some text) k =
      if str_eq text ""
      then refused 400 "Transaction ID is required"
      else with_transaction_id (parse_uuid text) k

  -- The path's fifth part, if the path has as many parts as the route.
  abbrev pub with_path :
      (String → Option ℕ) → ℕ → List String → (ℕ → Handler World A) → Handler World A
  with_path parse_uuid least parts k =
      if ltb (length parts) least
      then refused 400 "Transaction ID is required"
      else with_segment parse_uuid (part 4 parts) k

module _ (e : Env) (s : Service) (m : JwtManager) (parse_uuid : String → Option ℕ) (now : ℕ) where
  -- What `handleCredit`, `handleDebit` and `handleTransfer` share: the authentication, the user's
  -- id, the body, and the answer of a service that takes both.
  unfoldable pub handle_request :
      {R : Type 0}
      → (ℕ → R → M TransactionResponse)
      → (header : String) → Option R
      → Handler World TransactionResponse
  handle_request service header body = behind (auth_middleware m now header) λ claims.
      as_user m parse_uuid claims
        λ user_id. with_body body λ r. respond_with respond_created (service user_id r)

  -- `handleCredit`
  unfoldable pub handle_credit :
      (header : String) → Option CreditRequest → Handler World TransactionResponse
  handle_credit = handle_request (credit_sync e s)

  -- `handleDebit`
  unfoldable pub handle_debit :
      (header : String) → Option DebitRequest → Handler World TransactionResponse
  handle_debit = handle_request (debit_sync e s)

  -- `handleTransfer`
  unfoldable pub handle_transfer :
      (header : String) → Option TransferRequest → Handler World TransactionResponse
  handle_transfer = handle_request (transfer_sync e s)

  -- `handleGetCurrentBalance`
  unfoldable pub handle_get_current_balance : (header : String) → Handler World BalanceResponse
  handle_get_current_balance header = behind (auth_middleware m now header) λ claims.
      as_user m parse_uuid claims
        λ user_id. respond_with respond_balance (get_current e s.has_cache user_id)

  -- `handleGetTransaction`
  unfoldable pub handle_get_transaction : (header path : String) → Handler World TransactionResponse
  handle_get_transaction header path = behind (auth_middleware m now header) λ claims.
      as_user m parse_uuid claims λ user_id.
        with_path parse_uuid 5 (split_path path)
          λ id. respond_with respond_found (get_transaction e s id user_id)

  -- `handleRollbackTransaction`
  unfoldable pub handle_rollback_transaction :
      (header path : String) → Handler World TransactionResponse
  handle_rollback_transaction header path = behind (auth_middleware m now header) λ claims.
      as_user m parse_uuid claims λ user_id. with_path parse_uuid 6 (split_path path) λ id.
        respond_with respond_rollback (
          if caller_is_admin claims then rollback_by_admin e s id else rollback_sync e s id user_id)
