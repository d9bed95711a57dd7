-- ===== src/Service/Event.antt =====
-- internal/service/event.go and `NewEvent` of internal/domain/event.go: the events that the
-- services publish, one by one. The metadata of an event is left out.
use insider_banking_project.Base.{ℕ, String, Option, none, some}
use insider_banking_project.Base.Int.{ℤ}
use insider_banking_project.Domain.User.{User}
use insider_banking_project.Domain.Transaction.{Transaction}
use insider_banking_project.Domain.Event.{
  Event, EventData, user_registered, amount_credited, amount_debited, transfer_executed,
  transaction_started, transaction_completed, transaction_failed,
}
use insider_banking_project.Repository.World.{Env, M, pure, with_context, new_uuid, time_now, ◌>>=◌}
use insider_banking_project.Repository.Journal.{append_event}

-- The aggregate that the events of a transaction are filed under.
abbrev pub transaction_aggregate : ℕ → Option ℕ → ℕ
transaction_aggregate id none = id
transaction_aggregate id (some to_user) = to_user

module _ (e : Env) where
  -- `NewEvent`
  unfoldable pub new_event : String → ℕ → String → EventData → M Event
  new_event aggregate_type aggregate_id event_type event_data = do
    id ← new_uuid e
    now ← time_now e
    pure (record {
      id = id;
      aggregate_type = aggregate_type;
      aggregate_id = aggregate_id;
      event_type = event_type;
      event_data = event_data;
      created_at = now;
      version = 1;
    })

  -- `PublishEvent`
  unfoldable pub publish_event : String → ℕ → String → EventData → M Event
  unfolding new_event
  publish_event aggregate_type aggregate_id event_type event_data = do
    v ←
        with_context "failed to create event"
          (new_event aggregate_type aggregate_id event_type event_data)
    with_context "failed to publish event" (append_event e v)

  -- `UserRegistered`: the event has no password hash.
  unfoldable pub user_registered_event : User → M Event
  unfolding publish_event
  user_registered_event u =
      publish_event "user" u.id "UserRegistered" (user_registered u.id u.email u.username "" u.role)

  -- `AmountCredited`
  unfoldable pub amount_credited_event : ℕ → ℤ → String → ℕ → String → M Event
  unfolding publish_event
  amount_credited_event u amount currency id reason =
      publish_event "balance" u "AmountCredited" (amount_credited u amount currency id reason)

  -- `AmountDebited`
  unfoldable pub amount_debited_event : ℕ → ℤ → String → ℕ → String → M Event
  unfolding publish_event
  amount_debited_event u amount currency id reason =
      publish_event "balance" u "AmountDebited" (amount_debited u amount currency id reason)

  -- `TransferExecuted`
  unfoldable pub transfer_executed_event : (from to : ℕ) → ℤ → String → ℕ → M Event
  unfolding publish_event
  transfer_executed_event from to amount currency id =
      publish_event "transaction" id "TransferExecuted"
        (transfer_executed from to amount currency id)

  -- `TransactionStarted`
  unfoldable pub transaction_started_event : ℕ → Transaction → M Event
  unfolding publish_event
  transaction_started_event id t =
      publish_event "transaction" (transaction_aggregate id t.to_user_id) "TransactionStarted"
        (transaction_started id t.from_user_id t.to_user_id t.amount t.type)

  -- `TransactionCompleted`
  unfoldable pub transaction_completed_event : ℕ → Transaction → M Event
  unfolding publish_event
  transaction_completed_event id t =
      publish_event "transaction" (transaction_aggregate id t.to_user_id) "TransactionCompleted"
        (transaction_completed id t.from_user_id t.to_user_id t.amount t.type)

  -- `TransactionFailed`
  unfoldable pub transaction_failed_event : ℕ → Transaction → String → M Event
  unfolding publish_event
  transaction_failed_event id t error_msg =
      publish_event "transaction" (transaction_aggregate id t.to_user_id) "TransactionFailed"
        (transaction_failed id t.from_user_id t.to_user_id t.amount t.type error_msg)
