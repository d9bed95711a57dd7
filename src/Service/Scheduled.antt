-- ===== src/Service/Scheduled.antt =====
-- internal/service/scheduled_transaction.go: making, cancelling and executing a scheduled
-- transaction. Printing is left out.
use insider_banking_project.Base.{
  ℕ, ⊤, Bool, true, false, not, ◌&&◌, ◌||◌, String, str_eq, Option, none, some, List, [], ◌∷◌, ◌==◌,
  is_none, is_some, ltb, if◌then◌else◌,
}
use insider_banking_project.Base.Int.{ℤ, pos, leb_ℤ, increment, max_int64}
use insider_banking_project.Base.Dict.{lookup}
use insider_banking_project.Domain.Error.{Error, plain, wrap}
use insider_banking_project.Domain.Scheduled.{
  AddDate, ScheduledTransaction, ScheduledTransactionRequest, ScheduledTransactionExecution,
  some_and, scheduled_request_validate, calculate_next_execution,
}
use insider_banking_project.Domain.Transaction.{TransactionResponse}
use insider_banking_project.Repository.World.{
  Env, World, Result, ok, err, time_now, new_uuid, check,
}
use insider_banking_project.Repository.Scheduled.{
  Plan, P, run, answer, return, refuse, in_plan_context, require_that, ◌then◌, create_schedule,
  update_schedule, get_schedule, create_execution,
}
use insider_banking_project.Service.Transaction.Common.{Service}
use insider_banking_project.Service.Transaction.Credit.{credit_sync}
use insider_banking_project.Service.Transaction.Debit.{debit_sync}
use insider_banking_project.Service.Transaction.Transfer.{transfer_sync}
mod Dates
mod Steps
mod Laws
mod Creation
pub mod Outcomes
pub mod Tests

-- "once" and "one-time" are the same.
abbrev pub normalize_type : String → String
normalize_type type = if str_eq type "once" then "one-time" else type

abbrev pub transfer_receiver : Option ℕ → ℕ → P ⊤
transfer_receiver none user_id = refuse (plain "transfer transactions require to_user_id")
transfer_receiver (some v) user_id = require_that (not (v == user_id)) "cannot transfer to self"

-- The switch of `Create` on the transaction's type.
unfoldable pub check_receiver : ℕ → ScheduledTransactionRequest → P ⊤
check_receiver user_id r =
    if str_eq r.transaction_type "credit"
    then require_that (is_none r.to_user_id) "credit transactions cannot have to_user_id"
    else if str_eq r.transaction_type "debit"
    then require_that (is_none r.to_user_id) "debit transactions cannot have to_user_id"
    else if str_eq r.transaction_type "transfer"
    then transfer_receiver r.to_user_id user_id
    else refuse (plain "invalid transaction type")

abbrev pub new_schedule : ℕ → ScheduledTransactionRequest → ℕ → ℕ → ℕ → ScheduledTransaction
new_schedule user_id r id created updated = record {
  id = id;
  user_id = user_id;
  transaction_type = r.transaction_type;
  amount = r.amount;
  currency = r.currency;
  description = r.description;
  to_user_id = r.to_user_id;
  schedule_type = normalize_type r.schedule_type;
  execute_at = r.execute_at;
  recurrence_pattern = r.recurrence_pattern;
  recurrence_end_date = r.recurrence_end_date;
  max_occurrences = r.max_occurrences;
  current_occurrence = pos 0;
  status = "active";
  is_active = true;
  created_at = created;
  updated_at = updated;
  last_executed_at = none;
  next_execution_at = none;
}

module _ (e : Env) (add_date : AddDate) where
  abbrev pub with_next : ScheduledTransaction → ScheduledTransaction
  with_next st = record st { next_execution_at = calculate_next_execution add_date st }

  -- `Create`
  unfoldable pub create : ℕ → ScheduledTransactionRequest → P ScheduledTransaction
  create user_id r = run (time_now e) then λ now.
      run (check "invalid request" (scheduled_request_validate now r)) then λ _.
      check_receiver user_id r then λ _. run (new_uuid e) then λ id.
      run (time_now e) then λ created. run (time_now e) then λ updated.
      in_plan_context "failed to create scheduled transaction"
        (create_schedule e add_date (with_next (new_schedule user_id r id created updated)))
      then λ _. return (with_next (new_schedule user_id r id created updated))

  -- `GetByID`. The response has the row's fields.
  unfoldable pub get_for_user : ℕ → ℕ → P ScheduledTransaction
  get_for_user id user_id =
      in_plan_context "failed to get scheduled transaction" (get_schedule e add_date id) then λ st.
      require_that (st.user_id == user_id) "access denied: not owner of scheduled transaction"
      then λ _. return st

  -- `Cancel`
  unfoldable pub cancel : ℕ → ℕ → P ⊤
  cancel id user_id =
      in_plan_context "failed to get scheduled transaction" (get_schedule e add_date id) then λ st.
      require_that (st.user_id == user_id) "access denied: not owner of scheduled transaction"
      then λ _. run (time_now e) then λ now.
          in_plan_context "failed to cancel scheduled transaction" (
            update_schedule e add_date
              (record st { status = "cancelled"; is_active = false; updated_at = now }))

module _ (e : Env) (add_date : AddDate) (s : Service) where
  abbrev pub execute_transfer : ScheduledTransaction → Option ℕ → P (Result TransactionResponse)
  execute_transfer st none = refuse (plain "transfer transaction missing to_user_id")
  execute_transfer st (some v) = answer (
      transfer_sync e s st.user_id
        (record { to_user_id = v; amount = st.amount; currency = st.currency }))

  -- The switch on the transaction's type: the outer result is an early return, the inner one what
  -- the transaction service answered.
  unfoldable pub execute : ScheduledTransaction → P (Result TransactionResponse)
  execute st =
      if str_eq st.transaction_type "credit"
      then answer
          (credit_sync e s st.user_id (record { amount = st.amount; currency = st.currency }))
      else if str_eq st.transaction_type "debit"
      then answer
          (debit_sync e s st.user_id (record { amount = st.amount; currency = st.currency }))
      else if str_eq st.transaction_type "transfer"
      then execute_transfer st st.to_user_id
      else refuse (plain "unknown transaction type")

  abbrev pub execution :
      ScheduledTransaction
      → ℕ
      → ℕ
      → String
      → Option ℕ
      → Option Error
      → ScheduledTransactionExecution
  execution st id now status transaction_id message = record {
    id = id;
    scheduled_transaction_id = st.id;
    executed_at = now;
    status = status;
    transaction_id = transaction_id;
    error_message = message;
    amount = st.amount;
    currency = st.currency;
  }

  abbrev pub completed : ScheduledTransaction → ScheduledTransaction
  completed st = record st { is_active = false; status = "completed" }

  -- The last two branches of the recurrence rules.
  abbrev pub by_schedule_type : ScheduledTransaction → ScheduledTransaction
  by_schedule_type st =
      if str_eq st.schedule_type "once" || str_eq st.schedule_type "one-time"
      then completed st
      else record st {
        status = "active";
        next_execution_at = calculate_next_execution add_date (record st { status = "active" });
      }

  abbrev pub by_end_date : ScheduledTransaction → Option ℕ → P ScheduledTransaction
  by_end_date st none = return (by_schedule_type st)
  by_end_date st (some d) =
      run (time_now e) then λ now. return (if ltb d now then completed st else by_schedule_type st)

  -- Whether the schedule goes on, after one more execution.
  unfoldable pub recurrence_rules : ScheduledTransaction → P ScheduledTransaction
  recurrence_rules st =
      if some_and (λ n. leb_ℤ n st.current_occurrence) st.max_occurrences
      then return (completed st)
      else by_end_date st st.recurrence_end_date

  -- The end of a success: the row is written.
  unfoldable pub store : ScheduledTransaction → P ⊤
  store st = run (time_now e) then λ updated.
      in_plan_context "failed to update scheduled transaction"
        (update_schedule e add_date (record st { updated_at = updated }))

  -- The branch of an error, and the branch of a success.
  unfoldable pub record_result : ScheduledTransaction → Result TransactionResponse → P ⊤
  record_result st (err x) = run (new_uuid e) then λ id. run (time_now e) then λ now.
      in_plan_context "failed to create execution record"
        (create_execution e add_date (execution st id now "failed" none (some x)))
      then λ _. refuse (wrap "transaction execution failed" x)
  record_result st (ok r) = run (new_uuid e) then λ id. run (time_now e) then λ now.
      in_plan_context "failed to create execution record"
        (create_execution e add_date (execution st id now "success" (some r.id) none))
      then λ _.
          recurrence_rules (record st {
            last_executed_at = some now;
            current_occurrence = increment max_int64 st.current_occurrence;
          })
          then store

  -- `processScheduledTransaction`
  unfoldable pub process : ScheduledTransaction → P ⊤
  process st p =
      if not st.is_active && str_eq st.status "completed"
      then (ok tt, p)
      else (execute st then record_result st) p
