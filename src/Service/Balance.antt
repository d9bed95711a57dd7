-- ===== src/Service/Balance.antt =====
-- internal/service/balance.go: the current balance of a user, from the cache or the database.
use insider_banking_project.Base.{ℕ, ⊤, Bool, String, ◌∷◌, [], if◌then◌else◌}
use insider_banking_project.Base.Int.{ℤ}
use insider_banking_project.Domain.Event.{id_detail, amount_detail, text_detail}
use insider_banking_project.Domain.Balance.{BalanceResponse, balance_to_response, is_valid_currency}
use insider_banking_project.Repository.World.{
  Env, Result, ok, err, M, pure, guard, when, ignore, attempt, with_context, ◌>>=◌, ◌>>◌,
}
use insider_banking_project.Repository.Balances.{get_by_user_id, upsert}
use insider_banking_project.Repository.Cache.{
  cache_balance, get_cached_balance, invalidate_balance_cache,
}
use insider_banking_project.Repository.Journal.{audit_log}

-- `has_cache` says whether `SetCacheService` has been called.
module _ (e : Env) (has_cache : Bool) where
  -- The part of `GetCurrent` after a cache miss.
  unfoldable pub current_from_database : ℕ → M BalanceResponse
  current_from_database u = do
    b ← with_context "failed to get balance" (get_by_user_id e u)
    when has_cache (ignore (cache_balance e b))
    pure (balance_to_response b)

  abbrev pub or_from_database : ℕ → Result BalanceResponse → M BalanceResponse
  or_from_database u (ok r) = pure r
  or_from_database u (err _) = current_from_database u

  -- `GetCurrent`
  unfoldable pub get_current : ℕ → M BalanceResponse
  get_current u w =
      if has_cache
      then (attempt (get_cached_balance e u) >>= or_from_database u) w
      else current_from_database u w

  -- `Initialize`
  unfoldable pub initialize : ℕ → ℤ → String → M ⊤
  initialize u initial_amount currency = do
    guard (is_valid_currency currency) "unsupported currency"
    with_context "failed to initialize balance" (
        upsert e (record {
          user_id = u;
          amount = initial_amount;
          currency = currency;
          last_updated_at = 0;
        }))
    when has_cache (ignore (invalidate_balance_cache e u))
    ignore (
        audit_log e "balance" u "initialize" (
          ("user_id", id_detail u)
          ∷ ("amount", amount_detail initial_amount)
          ∷ ("currency", text_detail currency)
          ∷ []))
