-- ===== src/Service/Transaction/Transfer.antt =====
-- `TransferSync`, which `Transfer` calls: money is moved inside one database transaction.
use insider_banking_project.Base.{ℕ, ⊤, not, List, String, str_eq, Option, none, some, [], ◌∷◌}
use insider_banking_project.Base.Int.{pos, ◌-ℤ◌, ltb_ℤ}
use insider_banking_project.Base.Dict.{Dict}
use insider_banking_project.Domain.Error.{plain}
use insider_banking_project.Domain.Balance.{Balance}
use insider_banking_project.Domain.Transaction.{
  Transaction, TransferRequest, TransactionResponse, transaction_to_response,
  transfer_request_validate, type_transfer, status_pending,
}
use insider_banking_project.Domain.Event.{Detail, id_detail, amount_detail, transfer_executed}
use insider_banking_project.Repository.World.{
  Env, World, ok, err, M, pure, fail, ignore, check, guard, when, on_error, call, new_uuid,
  time_now, with_context, ◌>>=◌, ◌>>◌,
}
use insider_banking_project.Repository.Balances.{add_amount_tx}
use insider_banking_project.Repository.Transactions.{create_pending, mark_completed, mark_failed}
use insider_banking_project.Repository.Journal.{append_event}
use insider_banking_project.Service.Balance.{get_current}
use insider_banking_project.Service.Transaction.Common.{
  Service, Pool, no_pool, other_pool, pgx_pool, after_success,
}

-- The record that the transfer creates.
abbrev pub transfer_record : ℕ → TransferRequest → Transaction
transfer_record u req = record {
  id = 0;
  from_user_id = some u;
  to_user_id = some req.to_user_id;
  amount = req.amount;
  currency = req.currency;
  type = type_transfer;
  status = status_pending;
  created_at = 0;
}

-- What the audit log keeps of the transfer.
abbrev pub transfer_details : ℕ → TransferRequest → List (String × Detail)
transfer_details u req =
    ("from_user_id", id_detail u)
    ∷ ("to_user_id", id_detail req.to_user_id)
    ∷ ("amount", amount_detail req.amount)
    ∷ []

abbrev pub require_pool : Pool → M ⊤
require_pool no_pool = fail (plain "database pool not available")
require_pool other_pool = fail (plain "invalid database pool type")
require_pool pgx_pool = pure tt

module _ (e : Env) where
  -- `pool.Begin`: the transaction sees the balances as they are.
  unfoldable pub begin : M ⊤
  begin = call e λ w. (ok tt, record w { tx = some w.db.balances })

  -- What the open transaction has written becomes the table.
  abbrev pub commit_tx : Option (Dict Balance) → M ⊤
  commit_tx none w = (err (plain "tx is closed"), w)
  commit_tx (some t) w = (ok tt, record w { db = record (w.db) { balances = t }; tx = none })

  -- `tx.Commit`
  unfoldable pub commit : M ⊤
  commit = call e λ w. commit_tx w.tx w

  -- The deferred `tx.Rollback`: an open transaction is dropped.
  abbrev pub rollback_tx : World → World
  rollback_tx w = record w { tx = none }

  abbrev pub with_rollback : M ⊤ → M ⊤
  with_rollback m w = ((m w).0, rollback_tx (m w).1)

  -- `EventService.TransferExecuted`, with `PublishEvent` and `NewEvent`
  unfoldable pub publish_transfer_executed : ℕ → TransferRequest → ℕ → M ⊤
  publish_transfer_executed u req id = do
    event_id ← new_uuid e
    now ← time_now e
    with_context "failed to publish event" (
        append_event e (record {
          id = event_id;
          aggregate_type = "transaction";
          aggregate_id = id;
          event_type = "TransferExecuted";
          event_data = transfer_executed u req.to_user_id req.amount req.currency id;
          created_at = now;
          version = 1;
        }))
    pure tt

  -- The two updates and the commit, with the rollback on the way out.
  unfoldable pub move_amount : ℕ → TransferRequest → ℕ → M ⊤
  move_amount u req id = do
    on_error (ignore (mark_failed e id)) (with_context "failed to begin transaction" (begin))
    with_rollback (do
      on_error (ignore (mark_failed e id))
          (with_context "failed to debit sender" (add_amount_tx e u (pos 0 -ℤ req.amount)))
      on_error (ignore (mark_failed e id))
          (with_context "failed to credit receiver" (add_amount_tx e req.to_user_id req.amount))
      on_error (ignore (mark_failed e id)) (with_context "failed to commit transaction" commit))

module _ (e : Env) (s : Service) where
  -- After the commit: the record is completed, the event published, and the caches refreshed.
  unfoldable pub transfer_finish : ℕ → TransferRequest → Transaction → M TransactionResponse
  transfer_finish u req t = do
    with_context "failed to mark transaction completed" (mark_completed e t.id)
    ignore (when s.has_events (publish_transfer_executed e u req t.id))
    after_success e s (u ∷ req.to_user_id ∷ []) t "transfer" (transfer_details u req)
    pure (transaction_to_response t)

  -- From the creation of the record to the end of the transfer.
  unfoldable pub transfer_write : ℕ → TransferRequest → M TransactionResponse
  transfer_write u req = do
    t ← with_context "failed to create transaction" (create_pending e (transfer_record u req))
    on_error (ignore (mark_failed e t.id)) (require_pool s.pool)
    move_amount e u req t.id
    transfer_finish u req t

  -- `TransferSync`
  unfoldable pub transfer_sync : ℕ → TransferRequest → M TransactionResponse
  transfer_sync u req = do
    check "invalid transfer request" (transfer_request_validate req)
    sender ← with_context "failed to get sender balance" (get_current e s.has_cache u)
    guard (str_eq sender.currency req.currency) "currency mismatch"
    guard (not (ltb_ℤ sender.amount req.amount)) "insufficient funds"
    receiver ←
        with_context "failed to get receiver balance" (get_current e s.has_cache req.to_user_id)
    guard (str_eq receiver.currency req.currency) "currency mismatch"
    transfer_write u req
