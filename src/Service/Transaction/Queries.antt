-- ===== src/Service/Transaction/Queries.antt =====
-- `GetByID` of the transaction service: one transaction, for a user who took part in it.
use insider_banking_project.Base.{ℕ, Bool, false, ◌||◌, Option, none, some, ◌==◌, if◌then◌else◌}
use insider_banking_project.Domain.Transaction.{
  Transaction, TransactionResponse, transaction_to_response,
}
use insider_banking_project.Repository.World.{
  Env, Result, ok, err, M, pure, ignore, attempt, guard, when, with_context, ◌>>=◌, ◌>>◌,
}
use insider_banking_project.Repository.Transactions.{get_by_id}
use insider_banking_project.Repository.Cache.{cache_transaction, get_cached_transaction}
use insider_banking_project.Service.Transaction.Common.{Service}

abbrev pub is_user : Option ℕ → ℕ → Bool
is_user none u = false
is_user (some v) u = v == u

-- The user is the sender or the receiver.
abbrev pub can_view : Transaction → ℕ → Bool
can_view t u = is_user t.from_user_id u || is_user t.to_user_id u

module _ (e : Env) (s : Service) where
  -- The part of `GetByID` after a cache miss.
  unfoldable pub transaction_from_database : ℕ → ℕ → M TransactionResponse
  transaction_from_database id requesting_user = do
    t ← with_context "failed to get transaction" (get_by_id e id)
    guard (can_view t requesting_user)
        "access denied: you don't have permission to view this transaction"
    ignore (when s.has_cache (cache_transaction e t))
    pure (transaction_to_response t)

  abbrev pub or_read_transaction : ℕ → ℕ → Result TransactionResponse → M TransactionResponse
  or_read_transaction id requesting_user (ok r) = pure r
  or_read_transaction id requesting_user (err _) = transaction_from_database id requesting_user

  -- `GetByID`
  unfoldable pub get_transaction : ℕ → ℕ → M TransactionResponse
  get_transaction id requesting_user w =
      if s.has_cache
      then (attempt (get_cached_transaction e id) >>= or_read_transaction id requesting_user) w
      else transaction_from_database id requesting_user w
