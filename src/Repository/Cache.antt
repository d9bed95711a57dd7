-- ===== src/Repository/Cache.antt =====
-- The Redis cache: internal/service/cache.go over internal/repository/redis.go, for users,
-- balances and transactions. A command that fails, and an entry that has expired, is a fault of the
-- environment. The prefixes keep the keys apart, so there is one table for each.
use insider_banking_project.Base.{ℕ, ⊤, Option, none, some}
use insider_banking_project.Base.Dict.{lookup, insert, erase}
use insider_banking_project.Domain.Error.{plain}
use insider_banking_project.Domain.Balance.{Balance, BalanceResponse, balance_to_response}
use insider_banking_project.Domain.Transaction.{
  Transaction, TransactionResponse, transaction_to_response,
}
use insider_banking_project.Domain.User.{User, UserResponse, user_to_response}
use insider_banking_project.Repository.World.{Env, ok, M, pure, fail, call}

abbrev pub key_found : {A : Type 0} → Option A → M A
key_found none = fail (plain "key not found")
key_found (some a) = pure a

module _ (e : Env) where
  -- `CacheUser`
  unfoldable pub cache_user : User → M ⊤
  cache_user u = call e λ w. (
    ok tt,
    record w {
      cache = record (w.cache) { users = insert u.id (user_to_response u) w.cache.users };
    },
  )

  -- `GetCachedUser`
  unfoldable pub get_cached_user : ℕ → M UserResponse
  get_cached_user id = call e λ w. key_found (lookup id w.cache.users) w

  -- `InvalidateUserCache`
  unfoldable pub invalidate_user_cache : ℕ → M ⊤
  invalidate_user_cache id =
      call e λ w. (ok tt, record w { cache = record (w.cache) { users = erase id w.cache.users } })

  -- `CacheBalance`
  unfoldable pub cache_balance : Balance → M ⊤
  cache_balance b = call e λ w. (
    ok tt,
    record w {
      cache = record (w.cache) {
        balances = insert b.user_id (balance_to_response b) w.cache.balances;
      };
    },
  )

  -- `GetCachedBalance`
  unfoldable pub get_cached_balance : ℕ → M BalanceResponse
  get_cached_balance u = call e λ w. key_found (lookup u w.cache.balances) w

  -- `InvalidateBalanceCache`
  unfoldable pub invalidate_balance_cache : ℕ → M ⊤
  invalidate_balance_cache u =
      call e
        λ w. (ok tt, record w { cache = record (w.cache) { balances = erase u w.cache.balances } })

  -- `CacheTransaction`
  unfoldable pub cache_transaction : Transaction → M ⊤
  cache_transaction t = call e λ w. (
    ok tt,
    record w {
      cache = record (w.cache) {
        transactions = insert t.id (transaction_to_response t) w.cache.transactions;
      };
    },
  )

  -- `GetCachedTransaction`
  unfoldable pub get_cached_transaction : ℕ → M TransactionResponse
  get_cached_transaction id = call e λ w. key_found (lookup id w.cache.transactions) w

  -- `InvalidateTransactionCache`
  unfoldable pub invalidate_transaction_cache : ℕ → M ⊤
  invalidate_transaction_cache id = call e λ w. (
    ok tt,
    record w { cache = record (w.cache) { transactions = erase id w.cache.transactions } },
  )

  -- `InvalidateTransactionHistoryCache`
  unfoldable pub invalidate_transaction_history_cache : ℕ → M ⊤
  invalidate_transaction_history_cache u =
      call e λ w.
        (ok tt, record w { cache = record (w.cache) { histories = erase u w.cache.histories } })
