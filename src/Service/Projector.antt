-- ===== src/Service/Projector.antt =====
-- internal/service/projector.go: the read models brought up to date from the events, and the
-- queries of internal/repository/events.go that it reads them with. Rows with equal keys come in
-- the order of the table. Loops that only log an error go on after it.
pub mod Replay
mod Tests
use insider_banking_project.Base.{
  ℕ, ⊤, Bool, true, false, ◌&&◌, ◌==◌, String, str_eq, Option, none, some, List, [], ◌∷◌, suc, zero,
  ltb, leb, if◌then◌else◌,
}
use insider_banking_project.Base.Int.{ℤ, pos, negsuc, ◌+ℤ◌, ◌-ℤ◌}
use insider_banking_project.Domain.Balance.{Balance}
use insider_banking_project.Domain.Transaction.{
  Transaction, type_transfer, status_pending, status_success,
}
use insider_banking_project.Domain.User.{User}
use insider_banking_project.Domain.Event.{Event}
use insider_banking_project.Domain.Payload.{
  payload_user_id, payload_amount, payload_currency, payload_transaction_id, payload_from_user,
  payload_to_user, payload_type, or_nil, Registration, payload_registration, payload_new_data,
}
use insider_banking_project.Repository.World.{
  Env, Result, ok, err, M, pure, ignore, attempt, with_context, ◌>>=◌, ◌>>◌, call,
}
use insider_banking_project.Repository.Users.{create_user, update_user, get_user_by_id}
use insider_banking_project.Repository.Balances.{get_by_user_id, upsert}
use insider_banking_project.Repository.Transactions.{create_pending, mark_completed, mark_failed}

abbrev pub keep : (Event → Bool) → List Event → List Event
keep p [] = []
keep p (v ∷ vs) = let rest = keep p vs in if p v then v ∷ rest else rest

-- ORDER BY, with the events before one another as a test says.
abbrev pub place : (Event → Event → Bool) → Event → List Event → List Event
place before v [] = v ∷ []
place before v (x ∷ xs) =
    let rest = place before v xs in if before v x then v ∷ x ∷ xs else x ∷ rest

abbrev pub order_by : (Event → Event → Bool) → List Event → List Event
order_by before [] = []
order_by before (v ∷ vs) = place before v (order_by before vs)

abbrev pub take : ℕ → List Event → List Event
take zero vs = []
take (suc n) [] = []
take (suc n) (v ∷ vs) = v ∷ take n vs

abbrev pub drop : ℕ → List Event → List Event
drop zero vs = vs
drop (suc n) [] = []
drop (suc n) (v ∷ vs) = drop n vs

abbrev pub earlier : Event → Event → Bool
earlier v x = leb v.created_at x.created_at

abbrev pub later : Event → Event → Bool
later v x = leb x.created_at v.created_at

abbrev pub lower_version : Event → Event → Bool
lower_version v x = leb v.version x.version

module _ (e : Env) where
  -- `GetEventsByAggregate`
  unfoldable pub get_events_by_aggregate : String → ℕ → M (List Event)
  get_events_by_aggregate type id = with_context "failed to get events by aggregate" (
      call e λ w. (
        ok (
            order_by lower_version
              (keep (λ v. str_eq v.aggregate_type type && v.aggregate_id == id) w.db.events)),
        w,
      ))

  -- `GetEventsByType`
  unfoldable pub get_events_by_type : String → (limit offset : ℕ) → M (List Event)
  get_events_by_type type limit offset = with_context "failed to get events by type" (
      call e λ w. (
        ok (
            take limit
              (drop offset (order_by later (keep (λ v. str_eq v.event_type type) w.db.events)))),
        w,
      ))

  -- `GetEventsSince`
  unfoldable pub get_events_since : (since limit : ℕ) → M (List Event)
  get_events_since since limit = with_context "failed to get events since" (
      call e λ w.
        (ok (take limit (order_by earlier (keep (λ v. ltb since v.created_at) w.db.events))), w))

-- The row of a registration
abbrev pub projected_user : Event → User
projected_user v =
    let d = payload_registration v.event_data in
    record {
      id = d.user_id;
      username = d.username;
      email = d.email;
      password_hash = d.password_hash;
      role = d.role;
      created_at = v.created_at;
      updated_at = v.created_at;
      is_active = true;
    }

abbrev pub or_old : Option String → String → String
or_old none old = old
or_old (some s) old = s

abbrev pub updated_by : Event → User → User
updated_by v u =
    let (name, email, role) = payload_new_data v.event_data in
    record u {
      username = or_old name u.username;
      email = or_old email u.email;
      role = or_old role u.role;
      updated_at = v.created_at;
    }

abbrev pub is_zero : ℤ → Bool
is_zero (pos n) = n == 0
is_zero (negsuc n) = false

-- One event in the loop of `projectBalanceEvents`
abbrev pub apply_balance_event : Event → Balance → Balance
apply_balance_event v b =
    let d = v.event_data in
    record (if str_eq v.event_type "BalanceInitialized"
      then (if is_zero b.amount
          then record b { amount = payload_amount d; currency = payload_currency d }
          else b)
      else if str_eq v.event_type "AmountCredited"
      then record b { amount = b.amount +ℤ payload_amount d }
      else if str_eq v.event_type "AmountDebited"
      then record b { amount = b.amount -ℤ payload_amount d }
      else b) { last_updated_at = v.created_at }

unfoldable pub apply_balance_events : List Event → Balance → Balance
apply_balance_events [] b = b
apply_balance_events (v ∷ vs) b = apply_balance_events vs (apply_balance_event v b)

-- The balance to start from: what the table has, or nothing in USD.
abbrev pub or_empty_balance : ℕ → Result Balance → Balance
or_empty_balance u (ok b) = b
or_empty_balance u (err x) = record {
  user_id = u;
  amount = pos 0;
  currency = "USD";
  last_updated_at = 0;
}

-- The balance that a credit makes: a new one has no currency.
abbrev pub credited_balance : Event → Result Balance → Balance
credited_balance v (ok b) = record b {
  amount = b.amount +ℤ payload_amount v.event_data;
  last_updated_at = v.created_at;
}
credited_balance v (err x) = record {
  user_id = payload_user_id v.event_data;
  amount = payload_amount v.event_data;
  currency = "";
  last_updated_at = v.created_at;
}

abbrev pub started_transaction : Event → Transaction
started_transaction v = record {
  id = payload_transaction_id v.event_data;
  from_user_id = payload_from_user v.event_data;
  to_user_id = payload_to_user v.event_data;
  amount = payload_amount v.event_data;
  currency = "";
  type = payload_type v.event_data;
  status = status_pending;
  created_at = v.created_at;
}

abbrev pub executed_transaction : Event → Transaction
executed_transaction v = record {
  id = payload_transaction_id v.event_data;
  from_user_id = some (or_nil (payload_from_user v.event_data));
  to_user_id = some (or_nil (payload_to_user v.event_data));
  amount = payload_amount v.event_data;
  currency = "";
  type = type_transfer;
  status = status_success;
  created_at = v.created_at;
}

module _ (e : Env) where
  -- One event in the loop of `projectUserEvents`
  abbrev pub project_user_event : ℕ → Event → M ⊤
  project_user_event id v =
      if str_eq v.event_type "UserRegistered"
      then ignore (create_user e (projected_user v))
      else if str_eq v.event_type "UserUpdated"
      then (get_user_by_id e id >>= λ u. ignore (update_user e (updated_by v u)))
      else pure tt

  -- `projectUserEvents`
  unfoldable pub project_user_events : ℕ → List Event → M ⊤
  project_user_events id [] = pure tt
  project_user_events id (v ∷ vs) = project_user_event id v >> project_user_events id vs

  -- `projectBalanceEvents`
  unfoldable pub project_balance_events : ℕ → List Event → M ⊤
  unfolding apply_balance_events
  project_balance_events u vs = do
    found ← attempt (get_by_user_id e u)
    upsert e (apply_balance_events vs (or_empty_balance u found))

  -- `projectBalanceEvent`
  unfoldable pub project_balance_event : Event → M ⊤
  project_balance_event v =
      if str_eq v.event_type "BalanceInitialized"
      then upsert e (record {
        user_id = payload_user_id v.event_data;
        amount = payload_amount v.event_data;
        currency = payload_currency v.event_data;
        last_updated_at = v.created_at;
      })
      else if str_eq v.event_type "AmountCredited"
      then (attempt (get_by_user_id e (payload_user_id v.event_data)) >>= λ found.
          upsert e (credited_balance v found))
      else if str_eq v.event_type "AmountDebited"
      then (get_by_user_id e (payload_user_id v.event_data) >>= λ b. upsert e (record b {
        amount = b.amount -ℤ payload_amount v.event_data;
        last_updated_at = v.created_at;
      }))
      else pure tt

  -- `projectTransactionEvent`
  unfoldable pub project_transaction_event : Event → M ⊤
  project_transaction_event v =
      if str_eq v.event_type "TransactionStarted"
      then (create_pending e (started_transaction v) >>= λ _. pure tt)
      else if str_eq v.event_type "TransactionCompleted"
      then mark_completed e (payload_transaction_id v.event_data)
      else if str_eq v.event_type "TransactionFailed"
      then mark_failed e (payload_transaction_id v.event_data)
      else if str_eq v.event_type "TransferExecuted"
      then (create_pending e (executed_transaction v) >>= λ _. pure tt)
      else pure tt

  -- A loop whose errors are only logged
  abbrev pub each : (Event → M ⊤) → List Event → M ⊤
  each f [] = pure tt
  each f (v ∷ vs) = ignore (f v) >> each f vs

  -- `ProjectUser`
  unfoldable pub project_user : ℕ → M ⊤
  unfolding get_events_by_aggregate project_user_events
  project_user id = do
    vs ← with_context "failed to get user events" (get_events_by_aggregate e "user" id)
    project_user_events id vs

  -- `ProjectBalance`
  unfoldable pub project_balance : ℕ → M ⊤
  unfolding get_events_by_aggregate project_balance_events
  project_balance u = do
    vs ← with_context "failed to get balance events" (get_events_by_aggregate e "balance" u)
    project_balance_events u vs

  -- The body of the loop of `projectUsers`: create the user, or else update it.
  abbrev pub create_or_update : Event → M ⊤
  create_or_update v = attempt (create_user e (projected_user v)) >>= λ made. elim made [
    | ok u ↦ pure tt
    | err x ↦ ignore (update_user e (projected_user v))
  ]

  -- `projectUsers`
  unfoldable pub project_users : M ⊤
  unfolding get_events_by_type
  project_users = do
    vs ←
        with_context "failed to get user registered events"
          (get_events_by_type e "UserRegistered" 1000 0)
    each create_or_update vs

  -- The loop over event types, each with the context of its errors
  abbrev pub project_types : (Event → M ⊤) → List (String × String) → M ⊤
  project_types f [] = pure tt
  project_types f ((t, context) ∷ ts) = do
    vs ← with_context context (get_events_by_type e t 1000 0)
    each f vs
    project_types f ts

  -- `projectBalances`
  unfoldable pub project_balances : M ⊤
  unfolding get_events_by_type project_balance_event
  project_balances = project_types project_balance_event (
      ("BalanceInitialized", "failed to get BalanceInitialized events")
      ∷ ("AmountCredited", "failed to get AmountCredited events")
      ∷ ("AmountDebited", "failed to get AmountDebited events")
      ∷ [])

  -- `projectTransactions`
  unfoldable pub project_transactions : M ⊤
  unfolding get_events_by_type project_transaction_event
  project_transactions = project_types project_transaction_event (
      ("TransactionStarted", "failed to get TransactionStarted events")
      ∷ ("TransactionCompleted", "failed to get TransactionCompleted events")
      ∷ ("TransactionFailed", "failed to get TransactionFailed events")
      ∷ ("TransferExecuted", "failed to get TransferExecuted events")
      ∷ [])

  -- `ProjectAll`, which `RebuildReadModels` calls
  unfoldable pub project_all : M ⊤
  unfolding project_users project_balances project_transactions
  project_all = do
    with_context "failed to project users" project_users
    with_context "failed to project balances" project_balances
    with_context "failed to project transactions" project_transactions

  -- One event in the loop of `ProcessEventsSince`
  abbrev pub process_event : Event → M ⊤
  process_event v =
      if str_eq v.aggregate_type "user"
      then project_user_events v.aggregate_id (v ∷ [])
      else if str_eq v.aggregate_type "balance"
      then project_balance_event v
      else if str_eq v.aggregate_type "transaction"
      then project_transaction_event v
      else pure tt

  -- `ProcessEventsSince`
  unfoldable pub process_events_since : ℕ → M ⊤
  unfolding get_events_since project_user_events project_balance_event project_transaction_event
  process_events_since since = do
    vs ← with_context "failed to get events since" (get_events_since e since 1000)
    each process_event vs
