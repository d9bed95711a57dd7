-- ===== src/Service/Transaction/Common.antt =====
-- The transaction service's collaborators, and the steps that its operations share.
use insider_banking_project.Base.{ℕ, ⊤, Bool, String, List, [], ◌∷◌, ◌+◌, if◌then◌else◌}
use insider_banking_project.Domain.Error.{Error, codes, codes_eq, message}
use insider_banking_project.Domain.Transaction.{Transaction}
use insider_banking_project.Domain.Event.{Detail}
use insider_banking_project.Repository.World.{Env, ok, M, pure, ignore, when, ◌>>◌}
use insider_banking_project.Repository.Cache.{
  cache_transaction, invalidate_balance_cache, invalidate_transaction_history_cache,
}
use insider_banking_project.Repository.Journal.{audit_log}

-- `dbPool` is an interface value, which the transfer asserts to be a pgx pool.
pub data Pool : Type 0 where
  no_pool other_pool pgx_pool : Pool

-- Which optional collaborators `TransactionServiceImpl` was given.
pub record Service : Type 0 where
  pub has_cache : Bool
  pub has_events : Bool
  pub has_metrics : Bool
  pub pool : Pool

-- `isNotFoundError` compares the whole text of an error that is not nil.
unfoldable pub is_not_found_error : Error → Bool
is_not_found_error e = codes_eq (message e) (codes "balance not found for user")

module _ (e : Env) (s : Service) where
  -- `incrementTransactionCounter`
  unfoldable pub increment_transaction_counter : M ⊤
  increment_transaction_counter w =
      (ok tt, if s.has_metrics then record w { processed = w.processed + 1 } else w)

  -- Forget what the cache has of each user, balances first; failures are only logged.
  abbrev pub invalidate_balances : List ℕ → M ⊤
  invalidate_balances [] = pure tt
  invalidate_balances (u ∷ us) = ignore (invalidate_balance_cache e u) >> invalidate_balances us

  abbrev pub invalidate_histories : List ℕ → M ⊤
  invalidate_histories [] = pure tt
  invalidate_histories (u ∷ us) =
      ignore (invalidate_transaction_history_cache e u) >> invalidate_histories us

  -- `if s.cache != nil { ... }` of the credit, the debit and the transfer
  unfoldable pub refresh_cache : List ℕ → Transaction → M ⊤
  refresh_cache users t = ignore (
      when s.has_cache
        (do invalidate_balances users; invalidate_histories users; ignore (cache_transaction e t)))

  -- The last steps of a successful operation: caches, audit log, metrics.
  unfoldable pub after_success : List ℕ → Transaction → String → List (String × Detail) → M ⊤
  unfolding refresh_cache increment_transaction_counter
  after_success users t action details = do
    refresh_cache users t
    ignore (audit_log e "transaction" t.id action details)
    increment_transaction_counter
