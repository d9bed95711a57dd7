-- ===== src/Repository/Scheduled.antt =====
-- internal/repository/scheduled_transactions.go: the tables of scheduled transactions and of
-- their executions, with the constraints of migrations/009. A statement takes a tick of the
-- world, as everywhere.
use insider_banking_project.Base.{
  ℕ, ◌+◌, ⊤, Bool, true, false, ◌&&◌, ◌||◌, String, str_eq, Option, none, some, List, [], ◌∷◌, ◌++◌,
  leb, ltb, is_none, is_some, if◌then◌else◌,
}
use insider_banking_project.Base.Int.{pos, pos_part, leb_ℤ}
use insider_banking_project.Base.Dict.{Dict, lookup, insert}
use insider_banking_project.Domain.Error.{Error, plain}
use insider_banking_project.Domain.Balance.{one_of}
use insider_banking_project.Domain.Scheduled.{
  AddDate, ScheduledTransaction, ScheduledTransactionExecution, calculate_next_execution, none_or,
  valid_patterns,
}
use insider_banking_project.Repository.World.{
  Env, World, Result, ok, err, M, context_result, time_now,
}
use insider_banking_project.Repository.Constraints.{user_exists, reference_ok}
use insider_banking_project.Repository.Numeric.{to_numeric}

-- The world together with the two tables.
pub record Plan : Type 0 where
  pub world : World
  pub schedules : Dict ScheduledTransaction
  pub executions : List ScheduledTransactionExecution

abbrev pub P : Type 0 → Type 0
P A = Plan → Result A × Plan

module _ {A : Type 0} where
  -- What another part of the program does leaves the two tables alone.
  abbrev pub run : M A → P A
  run m p = ((m p.world).0, record p { world = (m p.world).1 })

  -- The answer of another part as a value, an error too.
  abbrev pub answer : M A → P (Result A)
  answer m p = (ok (m p.world).0, record p { world = (m p.world).1 })

  abbrev pub return : A → P A
  return a p = (ok a, p)

  abbrev pub refuse : Error → P A
  refuse x p = (err x, p)

  abbrev pub in_plan_context : String → P A → P A
  in_plan_context s m p = (context_result s (m p).0, (m p).1)

infixl 5 ◌then◌
abbrev pub ◌then◌ : {A B : Type 0} → P A → (A → P B) → P B
◌then◌ m f p = elim (m p).0 [ ok a ↦ f a (m p).1 | err x ↦ (err x, (m p).1) ]

abbrev pub require_that : Bool → String → P ⊤
require_that true s = return tt
require_that false s = refuse (plain s)

-- One statement on the two tables.
abbrev pub call_plan : Env → {A : Type 0} → P A → P A
call_plan e m p =
    let p' = record p { world = record (p.world) { tick = p.world.tick + 1 } } in
    elim (e.fault p.world.tick) [ none ↦ m p' | some s ↦ (err (plain s), p') ]

abbrev pub scheduled_checks_ok : ScheduledTransaction → Bool
scheduled_checks_ok st =
    one_of ("active" ∷ "paused" ∷ "cancelled" ∷ "completed" ∷ []) st.status
    && (none_or (λ n. leb_ℤ (pos 1) n && leb_ℤ n (pos 2147483647)) st.max_occurrences
        && leb_ℤ st.current_occurrence (pos 2147483647))

unfoldable pub scheduled_row_ok : Plan → ScheduledTransaction → Bool
scheduled_row_ok p st =
    is_none (lookup st.id p.schedules)
    && ((user_exists p.world.db.users st.user_id && reference_ok p.world.db.users st.to_user_id)
        && (one_of ("credit" ∷ "debit" ∷ "transfer" ∷ []) st.transaction_type
            && ((leb_ℤ (pos 1) st.amount && ltb (pos_part st.amount) 10000000000000000)
                && (one_of ("one-time" ∷ "recurring" ∷ []) st.schedule_type
                    && (none_or (one_of valid_patterns) st.recurrence_pattern
                        && scheduled_checks_ok st)))))

unfoldable pub execution_row_ok : Plan → ScheduledTransactionExecution → Bool
execution_row_ok p x =
    is_some (lookup x.scheduled_transaction_id p.schedules)
    && (one_of ("success" ∷ "failed" ∷ "skipped" ∷ []) x.status
        && none_or (λ id. is_some (lookup id p.world.db.transactions)) x.transaction_id)

abbrev pub put_schedule : ScheduledTransaction → P ⊤
put_schedule st p = (ok tt, record p { schedules = insert st.id st p.schedules })

abbrev pub select_schedule : ℕ → P (Option ScheduledTransaction)
select_schedule id p = (ok (lookup id p.schedules), p)

abbrev pub found_schedule : Option ScheduledTransaction → P ScheduledTransaction
found_schedule none = refuse (plain "scheduled transaction not found")
found_schedule (some st) = return st

module _ (e : Env) (add_date : AddDate) where
  abbrev pub insert_schedule : ScheduledTransaction → P ⊤
  insert_schedule st p =
      let row : ScheduledTransaction = record st { amount = to_numeric st.amount } in
      if scheduled_row_ok p row
      then put_schedule (record row { next_execution_at = calculate_next_execution add_date st }) p
      else (err (plain e.violation), p)

  -- `Create`
  unfoldable pub create_schedule : ScheduledTransaction → P ⊤
  create_schedule st =
      in_plan_context "failed to create scheduled transaction" (call_plan e (insert_schedule st))

  -- The columns that `Update` sets, on the row as it is.
  abbrev pub updated_row : ScheduledTransaction → ℕ → ScheduledTransaction → ScheduledTransaction
  updated_row st now row = record row {
    description = st.description;
    status = st.status;
    is_active = st.is_active;
    execute_at = st.execute_at;
    recurrence_end_date = st.recurrence_end_date;
    max_occurrences = st.max_occurrences;
    updated_at = now;
    next_execution_at = calculate_next_execution add_date st;
    last_executed_at = st.last_executed_at;
    current_occurrence = st.current_occurrence;
  }

  abbrev pub update_found : ScheduledTransaction → ℕ → Option ScheduledTransaction → P ⊤
  update_found st now none p = (ok tt, p)
  update_found st now (some row) p =
      if scheduled_checks_ok st
      then (ok tt, record p { schedules = insert st.id (updated_row st now row) p.schedules })
      else (err (plain e.violation), p)

  -- `Update`: no row with the id is no error.
  unfoldable pub update_schedule : ScheduledTransaction → P ⊤
  update_schedule st = run (time_now e) then λ now.
      in_plan_context "failed to update scheduled transaction"
        (call_plan e (λ p. update_found st now (lookup st.id p.schedules) p))

  -- `GetByID`
  unfoldable pub get_schedule : ℕ → P ScheduledTransaction
  get_schedule id =
      in_plan_context "failed to get scheduled transaction" (call_plan e (select_schedule id))
      then found_schedule

  abbrev pub insert_execution : ScheduledTransactionExecution → P ⊤
  insert_execution x p =
      if execution_row_ok p x
      then (ok tt, record p { executions = p.executions ++ x ∷ [] })
      else (err (plain e.violation), p)

  -- `CreateExecution`
  unfoldable pub create_execution : ScheduledTransactionExecution → P ⊤
  create_execution x =
      in_plan_context "failed to create execution record" (call_plan e (insert_execution x))

-- The WHERE clause of `GetDueForExecution`, on one row; a second is 10 ^ 9 nanoseconds.
unfoldable pub is_due : ℕ → ScheduledTransaction → Bool
is_due now st =
    (st.is_active && str_eq st.status "active")
    && (leb st.execute_at now
        && ((str_eq st.schedule_type "recurring" || is_none st.last_executed_at)
            && ltb (st.updated_at + 1000000000) now))
