-- ===== src/Service/Scheduled/Tests.antt =====
-- A schedule of one user, in a calendar whose days, months and years have fixed lengths.
use insider_banking_project.Base.{
  ℕ, ◌+◌, ◌*◌, ◌≤◌, ◌<◌, ◌≡◌, refl, true, false, none, some, arith, [], ◌∷◌,
}
use insider_banking_project.Base.Int.{pos, increment, max_int64}
use insider_banking_project.Base.Dict.{lookup}
use insider_banking_project.Domain.Scheduled.{
  AddDate, ScheduledTransaction, calculate_next_execution,
}
use insider_banking_project.Repository.Scheduled.{Plan, is_due}
use insider_banking_project.Service.Tests.{calm, service, world}
use insider_banking_project.Service.Scheduled.{process, cancel}
use insider_banking_project.Service.Scheduled.Dates.{Advances}
use insider_banking_project.Service.Scheduled.Laws.{
  Executed, process-Executed, process_stays_due, cancel_stops,
}
use insider_banking_project.Base.Dict.{insert}
use insider_banking_project.Base.Int.{◌+ℤ◌, ◌-ℤ◌}
use insider_banking_project.Domain.Balance.{is_valid_currency, one_of, supported_currencies}
use insider_banking_project.Domain.Scheduled.{next_time}
use insider_banking_project.Domain.Transaction.{debit_request_validate, validate_transaction_amount}
use insider_banking_project.Repository.Balances.{get_by_user_id, upsert}
use insider_banking_project.Repository.Numeric.{to_numeric}
use insider_banking_project.Repository.Constraints.{balance_row_ok, transaction_row_ok}
use insider_banking_project.Repository.Journal.{audit_log}
use insider_banking_project.Repository.Scheduled.{
  create_execution, execution_row_ok, get_schedule, update_schedule,
}
use insider_banking_project.Repository.Transactions.{
  create_pending, mark_completed, update_transaction_status,
}
use insider_banking_project.Service.Balance.{current_from_database, get_current}
use insider_banking_project.Service.Scheduled.{execute, record_result, recurrence_rules, store}
use insider_banking_project.Service.Transaction.Common.{
  after_success, increment_transaction_counter, is_not_found_error, refresh_cache,
}
use insider_banking_project.Service.Transaction.Debit.{debit_sync, debit_write}
use insider_banking_project.Domain.Scheduled.{ScheduledTransactionRequest}

abbrev pub days_later : AddDate
days_later y m d t = t + (y * 365 + m * 30 + d)

days_later-Advances : Advances days_later
days_later-Advances y m d t h = omega arith

abbrev pub schedule : ScheduledTransaction
schedule = record {
  id = 7;
  user_id = 1;
  transaction_type = "debit";
  amount = pos 100;
  currency = "USD";
  description = "rent";
  to_user_id = none;
  schedule_type = "recurring";
  execute_at = 0;
  recurrence_pattern = some "monthly";
  recurrence_end_date = none;
  max_occurrences = none;
  current_occurrence = pos 0;
  status = "active";
  is_active = true;
  created_at = 0;
  updated_at = 0;
  last_executed_at = none;
  next_execution_at = some 30;
}

abbrev pub plan : Plan
plan = record { world = world; schedules = (7, schedule) ∷ []; executions = [] }

process-Executed_example : Executed schedule plan (process calm days_later service schedule plan).1
unfolding lookup insert ◌+ℤ◌ ◌-ℤ◌ supported_currencies one_of is_valid_currency
    validate_transaction_amount balance_row_ok transaction_row_ok get_by_user_id upsert to_numeric
    create_pending update_transaction_status mark_completed audit_log current_from_database
    get_current is_not_found_error increment_transaction_counter refresh_cache after_success
    debit_request_validate debit_write debit_sync process execute record_result recurrence_rules
    store create_execution execution_row_ok update_schedule calculate_next_execution next_time
    increment max_int64
process-Executed_example = process-Executed calm days_later service schedule plan refl refl refl

process_stays_due_example :
    (row : ScheduledTransaction) × (lookup 7
        (process calm days_later service schedule plan).1.schedules
      ≡ some row)
    × ((now : ℕ) → 0 ≤ now → row.updated_at + 1000000000 < now → is_due now row ≡ true)
unfolding lookup insert ◌+ℤ◌ ◌-ℤ◌ supported_currencies one_of is_valid_currency
    validate_transaction_amount balance_row_ok transaction_row_ok get_by_user_id upsert to_numeric
    create_pending update_transaction_status mark_completed audit_log current_from_database
    get_current is_not_found_error increment_transaction_counter refresh_cache after_success
    debit_request_validate debit_write debit_sync process execute record_result recurrence_rules
    store create_execution execution_row_ok update_schedule calculate_next_execution next_time
    increment max_int64
process_stays_due_example =
    process_stays_due calm days_later service schedule plan refl refl refl refl refl refl

cancel_stops_example :
    (schedule.user_id ≡ schedule.user_id)
    × (row : ScheduledTransaction) × (lookup 7 (cancel calm days_later 7 1 plan).1.schedules
        ≡ some row)
    × (row.status ≡ "cancelled")
    × ((now : ℕ) → is_due now row ≡ false)
unfolding cancel get_schedule update_schedule lookup one_of
cancel_stops_example = cancel_stops calm days_later 7 1 schedule plan refl refl refl

abbrev request : ScheduledTransactionRequest
request = record {
  transaction_type = "transfer";
  amount = pos 100;
  currency = "USD";
  description = "rent";
  to_user_id = some 2;
  schedule_type = "recurring";
  execute_at = 50;
  recurrence_pattern = some "monthly";
  recurrence_end_date = none;
  max_occurrences = some (pos 12);
}

abbrev made : ScheduledTransaction
made = record {
  id = 101;
  user_id = 1;
  transaction_type = "transfer";
  amount = pos 100;
  currency = "USD";
  description = "rent";
  to_user_id = some 2;
  schedule_type = "recurring";
  execute_at = 50;
  recurrence_pattern = some "monthly";
  recurrence_end_date = none;
  max_occurrences = some (pos 12);
  current_occurrence = pos 0;
  status = "active";
  is_active = true;
  created_at = 2;
  updated_at = 3;
  last_executed_at = none;
  next_execution_at = some 80;
}
