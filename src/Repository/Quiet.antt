-- ===== src/Repository/Quiet.antt =====
-- The calls that move no money: balances, users and an open database transaction stay as they are.
use insider_banking_project.Base.{ℕ, ◌≡◌, String, List, arith}
use insider_banking_project.Domain.Balance.{Balance}
use insider_banking_project.Domain.Transaction.{Transaction}
use insider_banking_project.Domain.Event.{Event, Detail}
use insider_banking_project.Repository.World.{Env, World}
use insider_banking_project.Repository.Balances.{get_by_user_id}
use insider_banking_project.Repository.Transactions.{
  create_pending, update_transaction_status, mark_completed, mark_failed, get_by_id,
}
use insider_banking_project.Repository.Journal.{audit_log, append_event}
use insider_banking_project.Repository.Cache.{
  cache_balance, get_cached_balance, invalidate_balance_cache, cache_transaction,
  get_cached_transaction, invalidate_transaction_cache, invalidate_transaction_history_cache,
}

pub record Quiet (w w' : World) : Type 0 where
  pub same_balances : w'.db.balances ≡ w.db.balances
  pub same_users : w'.db.users ≡ w.db.users
  pub same_tx : w'.tx ≡ w.tx

pub Quiet-trans : {u v w : World} → Quiet u v → Quiet v w → Quiet u w
Quiet-trans p q = ground arith

module _ (e : Env) where
  pub get_by_user_id-Quiet : (u : ℕ) (w : World) → Quiet w (get_by_user_id e u w).1
  unfolding get_by_user_id
  get_by_user_id-Quiet u w = ground arith

  pub create_pending-Quiet : (t : Transaction) (w : World) → Quiet w (create_pending e t w).1
  unfolding create_pending
  create_pending-Quiet t w = ground arith

  pub update_transaction_status-Quiet :
      (id : ℕ) (expected new : String) (w : World)
      → Quiet w (update_transaction_status e id expected new w).1
  unfolding update_transaction_status
  update_transaction_status-Quiet id expected new w = ground arith

  pub mark_completed-Quiet : (id : ℕ) (w : World) → Quiet w (mark_completed e id w).1
  unfolding mark_completed
  mark_completed-Quiet id w = ground arith

  pub mark_failed-Quiet : (id : ℕ) (w : World) → Quiet w (mark_failed e id w).1
  unfolding mark_failed
  mark_failed-Quiet id w = ground arith

  pub get_by_id-Quiet : (id : ℕ) (w : World) → Quiet w (get_by_id e id w).1
  unfolding get_by_id
  get_by_id-Quiet id w = ground arith

  pub audit_log-Quiet :
      (entity_type : String) (entity_id : ℕ) (action : String) (details : List (String × Detail))
      (w : World)
      → Quiet w (audit_log e entity_type entity_id action details w).1
  unfolding audit_log
  audit_log-Quiet entity_type entity_id action details w = ground arith

  pub append_event-Quiet : (v : Event) (w : World) → Quiet w (append_event e v w).1
  unfolding append_event
  append_event-Quiet v w = ground arith

  pub cache_balance-Quiet : (b : Balance) (w : World) → Quiet w (cache_balance e b w).1
  unfolding cache_balance
  cache_balance-Quiet b w = ground arith

  pub get_cached_balance-Quiet : (u : ℕ) (w : World) → Quiet w (get_cached_balance e u w).1
  unfolding get_cached_balance
  get_cached_balance-Quiet u w = ground arith

  pub invalidate_balance_cache-Quiet :
      (u : ℕ) (w : World) → Quiet w (invalidate_balance_cache e u w).1
  unfolding invalidate_balance_cache
  invalidate_balance_cache-Quiet u w = ground arith

  pub cache_transaction-Quiet : (t : Transaction) (w : World) → Quiet w (cache_transaction e t w).1
  unfolding cache_transaction
  cache_transaction-Quiet t w = ground arith

  pub get_cached_transaction-Quiet :
      (id : ℕ) (w : World) → Quiet w (get_cached_transaction e id w).1
  unfolding get_cached_transaction
  get_cached_transaction-Quiet id w = ground arith

  pub invalidate_transaction_cache-Quiet :
      (id : ℕ) (w : World) → Quiet w (invalidate_transaction_cache e id w).1
  unfolding invalidate_transaction_cache
  invalidate_transaction_cache-Quiet id w = ground arith

  pub invalidate_transaction_history_cache-Quiet :
      (u : ℕ) (w : World) → Quiet w (invalidate_transaction_history_cache e u w).1
  unfolding invalidate_transaction_history_cache
  invalidate_transaction_history_cache-Quiet u w = ground arith
