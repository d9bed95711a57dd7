-- ===== src/Service/Quiet.antt =====
-- The service steps that move no money.
use insider_banking_project.Base.{ℕ, ◌≡◌, refl, Bool, String, List, [], ◌∷◌, arith}
use insider_banking_project.Domain.Transaction.{Transaction}
use insider_banking_project.Domain.Event.{Detail}
use insider_banking_project.Repository.World.{Env, World, ok}
use insider_banking_project.Repository.Quiet.{
  Quiet, Quiet-trans, get_by_user_id-Quiet, cache_balance-Quiet, get_cached_balance-Quiet,
  invalidate_balance_cache-Quiet, invalidate_transaction_history_cache-Quiet,
  cache_transaction-Quiet, audit_log-Quiet,
}
use insider_banking_project.Repository.Cache.{get_cached_balance}
use insider_banking_project.Service.Balance.{current_from_database, get_current}
use insider_banking_project.Service.Transaction.Common.{
  Service, invalidate_balances, invalidate_histories, after_success,
}

module _ (e : Env) (has_cache : Bool) where
  pub current_from_database-Quiet :
      (u : ℕ) (w : World) → Quiet w (current_from_database e has_cache u w).1
  unfolding current_from_database
  current_from_database-Quiet u w = grind (arith, get_by_user_id-Quiet e u w, cache_balance-Quiet)

  pub get_current-Quiet : (u : ℕ) (w : World) → Quiet w (get_current e has_cache u w).1
  unfolding get_current
  get_current-Quiet u w = ground (
    arith,
    current_from_database-Quiet u w,
    current_from_database-Quiet u (get_cached_balance e u w).1,
    get_cached_balance-Quiet e u w,
  )

module _ (e : Env) (s : Service) where
  invalidate_balances-Quiet : (us : List ℕ) (w : World) → Quiet w (invalidate_balances e s us w).1
  invalidate_balances-Quiet [] w = ground arith
  invalidate_balances-Quiet (u ∷ us) w =
      Quiet-trans (invalidate_balance_cache-Quiet e u w) (invalidate_balances-Quiet us _)

  invalidate_histories-Quiet : (us : List ℕ) (w : World) → Quiet w (invalidate_histories e s us w).1
  invalidate_histories-Quiet [] w = ground arith
  invalidate_histories-Quiet (u ∷ us) w =
      Quiet-trans (invalidate_transaction_history_cache-Quiet e u w)
        (invalidate_histories-Quiet us _)

  pub after_success-Quiet :
      (us : List ℕ) (t : Transaction) (action : String) (details : List (String × Detail))
      (w : World)
      → Quiet w (after_success e s us t action details w).1
  unfolding after_success
  after_success-Quiet us t action details w = grind (
    arith, invalidate_balances-Quiet, invalidate_histories-Quiet, cache_transaction-Quiet,
    audit_log-Quiet,
  )

  pub after_success_ok :
      (us : List ℕ) (t : Transaction) (action : String) (details : List (String × Detail))
      (w : World)
      → (after_success e s us t action details w).0 ≡ ok tt
  unfolding after_success
  after_success_ok us t action details w = refl
