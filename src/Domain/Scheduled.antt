-- ===== src/Domain/Scheduled.antt =====
-- internal/domain/scheduled_transaction.go: scheduled transactions, their validation, and when
-- they run next. `add_date` is `time.Time.AddDate`: years, months and days added to a time.
use insider_banking_project.Base.{
  ℕ, Bool, true, false, not, ◌||◌, String, str_eq, Option, none, some, List, [], ◌∷◌, leb, ltb,
  if◌then◌else◌, is_none, is_some,
}
use insider_banking_project.Base.Int.{ℤ, pos, leb_ℤ, increment, max_int64}
use insider_banking_project.Domain.Error.{Error, require, ◌then_check◌}
use insider_banking_project.Domain.Balance.{is_valid_currency, one_of}
use insider_banking_project.Domain.Transaction.{validate_transaction_amount}

pub record ScheduledTransaction : Type 0 where
  pub id : ℕ
  pub user_id : ℕ
  pub transaction_type : String
  pub amount : ℤ
  pub currency : String
  pub description : String
  pub to_user_id : Option ℕ
  pub schedule_type : String
  pub execute_at : ℕ
  pub recurrence_pattern : Option String
  pub recurrence_end_date : Option ℕ
  pub max_occurrences : Option ℤ
  pub current_occurrence : ℤ
  pub status : String
  pub is_active : Bool
  pub created_at : ℕ
  pub updated_at : ℕ
  pub last_executed_at : Option ℕ
  pub next_execution_at : Option ℕ

pub record ScheduledTransactionRequest : Type 0 where
  pub transaction_type : String
  pub amount : ℤ
  pub currency : String
  pub description : String
  pub to_user_id : Option ℕ
  pub schedule_type : String
  pub execute_at : ℕ
  pub recurrence_pattern : Option String
  pub recurrence_end_date : Option ℕ
  pub max_occurrences : Option ℤ

pub record ScheduledTransactionExecution : Type 0 where
  pub id : ℕ
  pub scheduled_transaction_id : ℕ
  pub executed_at : ℕ
  pub status : String
  pub transaction_id : Option ℕ
  pub error_message : Option Error
  pub amount : ℤ
  pub currency : String

-- An optional limit that is not set holds.
abbrev pub none_or {ℓ} : {A : Type ℓ} → (A → Bool) → Option A → Bool
none_or test none = true
none_or test (some a) = test a

abbrev pub some_and {ℓ} : {A : Type ℓ} → (A → Bool) → Option A → Bool
some_and test none = false
some_and test (some a) = test a

abbrev pub valid_patterns : List String
valid_patterns = "daily" ∷ "weekly" ∷ "monthly" ∷ "yearly" ∷ []

-- The options of a recurring schedule.
unfoldable pub validate_recurring : ScheduledTransactionRequest → Option Error
validate_recurring r =
    require (is_some r.recurrence_pattern)
      "recurrence_pattern is required for recurring transactions"
    then_check require (none_or (one_of valid_patterns) r.recurrence_pattern)
        "invalid recurrence_pattern: must be 'daily', 'weekly', 'monthly', or 'yearly'"
    then_check require (none_or (λ d. leb r.execute_at d) r.recurrence_end_date)
        "recurrence_end_date must be after execute_at"
    then_check require (none_or (λ n. not (leb_ℤ n (pos 0))) r.max_occurrences)
        "max_occurrences must be greater than 0"

-- A one-time schedule has none of them.
unfoldable pub validate_one_time : ScheduledTransactionRequest → Option Error
validate_one_time r =
    require (is_none r.recurrence_pattern)
      "recurrence_pattern should not be set for one-time transactions"
    then_check require (is_none r.recurrence_end_date)
        "recurrence_end_date should not be set for one-time transactions"
    then_check require (is_none r.max_occurrences)
        "max_occurrences should not be set for one-time transactions"

-- `(*ScheduledTransactionRequest).Validate`, at the time `now`
unfoldable pub scheduled_request_validate : ℕ → ScheduledTransactionRequest → Option Error
scheduled_request_validate now r =
    require
      (str_eq r.transaction_type "credit"
        || (str_eq r.transaction_type "debit" || str_eq r.transaction_type "transfer"))
      "invalid transaction_type: must be 'credit', 'debit', or 'transfer'"
    then_check validate_transaction_amount r.amount
    then_check require (is_valid_currency r.currency) "unsupported currency"
    then_check require
        (str_eq r.schedule_type "once"
          || (str_eq r.schedule_type "one-time" || str_eq r.schedule_type "recurring"))
        "invalid schedule_type: must be 'once', 'one-time', or 'recurring'"
    then_check require (not (ltb r.execute_at now)) "execute_at must be in the future"
    then_check (if str_eq r.transaction_type "transfer"
        then require (is_some r.to_user_id) "to_user_id is required for transfer transactions"
        else require (is_none r.to_user_id) "to_user_id should not be provided")
    then_check (if str_eq r.schedule_type "recurring"
        then validate_recurring r
        else validate_one_time r)

-- Years, months, days, and the time to which they are added.
abbrev pub AddDate : Type 0
AddDate = ℕ → ℕ → ℕ → ℕ → ℕ

module _ (add_date : AddDate) where
  -- The switch on the pattern.
  unfoldable pub next_time : String → ℕ → Option ℕ
  next_time pattern base =
      if str_eq pattern "daily"
      then some (add_date 0 0 1 base)
      else if str_eq pattern "weekly"
      then some (add_date 0 0 7 base)
      else if str_eq pattern "monthly"
      then some (add_date 0 1 0 base)
      else if str_eq pattern "yearly"
      then some (add_date 1 0 0 base)
      else none

  abbrev pub base_time : ScheduledTransaction → Option ℕ → ℕ
  base_time st none = st.execute_at
  base_time st (some t) = t

  -- The end conditions.
  abbrev pub within_limits : ScheduledTransaction → Option ℕ → Option ℕ
  within_limits st none = none
  within_limits st (some t) =
      if some_and (λ d. ltb d t) st.recurrence_end_date
      then none
      else if some_and (λ n. leb_ℤ n (increment max_int64 st.current_occurrence)) st.max_occurrences
      then none
      else some t

  abbrev pub next_of_pattern : ScheduledTransaction → Option String → Option ℕ
  next_of_pattern st none = none
  next_of_pattern st (some pattern) =
      within_limits st (next_time pattern (base_time st st.last_executed_at))

  -- `CalculateNextExecution`
  unfoldable pub calculate_next_execution : ScheduledTransaction → Option ℕ
  calculate_next_execution st =
      if str_eq st.schedule_type "recurring" then next_of_pattern st st.recurrence_pattern else none

  abbrev pub advance : ScheduledTransaction → Option ℕ → ScheduledTransaction
  advance st none = record st { status = "completed"; is_active = false }
  advance st (some t) = record st { next_execution_at = some t; execute_at = t }

  -- `MarkExecuted`
  unfoldable pub mark_executed : ℕ → ScheduledTransaction → ScheduledTransaction
  mark_executed now st =
      let st' = record st {
        last_executed_at = some now;
        current_occurrence = increment max_int64 st.current_occurrence;
        updated_at = now;
      } in
      if str_eq st.schedule_type "recurring"
      then advance st' (calculate_next_execution st')
      else record st' { status = "completed"; is_active = false }

-- `MarkFailed`
unfoldable pub mark_schedule_failed : ℕ → ScheduledTransaction → ScheduledTransaction
mark_schedule_failed now st =
    if str_eq st.schedule_type "recurring"
    then record st { updated_at = now; status = "paused" }
    else record st { updated_at = now; status = "cancelled"; is_active = false }

-- `ShouldExecute`
unfoldable pub should_execute : ℕ → ScheduledTransaction → Bool
should_execute now st =
    if not st.is_active || not (str_eq st.status "active") then false else leb st.execute_at now
