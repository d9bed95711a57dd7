-- ===== src/Service/Scheduled/Dates.antt =====
-- When a schedule runs next.
use insider_banking_project.Base.{
  ℕ, ◌+◌, ◌≤◌, ◌<◌, ◌≡◌, ◌⊎◌, inl, inr, true, false, Bool-cases, Option, some, Option-cases, String,
  str_eq, eq_iff, arith, is_some,
}
use insider_banking_project.Base.Int.{ℤ, leb_ℤ, increment, max_int64}
use insider_banking_project.Domain.Scheduled.{
  AddDate, ScheduledTransaction, calculate_next_execution, next_time, base_time, mark_executed,
  should_execute, within_limits,
}

-- `AddDate` with a positive count gives a later time.
abbrev pub Advances : AddDate → Type 0
Advances add_date = (y m d t : ℕ) → 1 ≤ y + m + d → t < add_date y m d t

module _ (add_date : AddDate) where
  next_time-later :
      Advances add_date
      → (pattern : String) (base : ℕ) {n : ℕ} → next_time add_date pattern base ≡ some n
      → base < n
  unfolding next_time
  next_time-later later pattern base h =
      ground (arith, later 0 0 1 base, later 0 0 7 base, later 0 1 0 base, later 1 0 0 base)

  within_limits_ok :
      (st : ScheduledTransaction) (o : Option ℕ) {n : ℕ}
      → within_limits add_date st o ≡ some n
      → (o ≡ some n)
        × ((d : ℕ) → st.recurrence_end_date ≡ some d → n ≤ d)
        × ((m : ℤ)
            → st.max_occurrences ≡ some m
            → leb_ℤ m (increment max_int64 st.current_occurrence) ≡ false)
  within_limits_ok st o h = (ground arith, λ d p. ground arith, λ m p. ground arith)

  -- If adding a date moves time forward, a next execution that `CalculateNextExecution` gives is
  -- for a recurring schedule with a pattern, comes after the last execution (or after the first
  -- date, when there was none), is not past the end date, and leaves the occurrences below the
  -- maximum.
  pub calculate_next_execution_bounds :
      (st : ScheduledTransaction) (n : ℕ)
      → Advances add_date
      → calculate_next_execution add_date st ≡ some n
      → (st.schedule_type ≡ "recurring")
        × (is_some st.recurrence_pattern ≡ true)
        × (base_time add_date st st.last_executed_at < n)
        × ((d : ℕ) → st.recurrence_end_date ≡ some d → n ≤ d)
        × ((m : ℤ)
            → st.max_occurrences ≡ some m
            → leb_ℤ m (increment max_int64 st.current_occurrence) ≡ false)
  unfolding calculate_next_execution
  calculate_next_execution_bounds st n later h =
      elim (Bool-cases (str_eq st.schedule_type "recurring")) [
        | inr other ↦ absurd (ground arith)
        | inl recurring ↦ elim (Option-cases st.recurrence_pattern) [
          | inl missing ↦ absurd (ground arith)
          | inr (pattern, p) ↦
              let base = base_time add_date st st.last_executed_at in
              let (next, end, most) =
                within_limits_ok st (next_time add_date pattern base) {n = n} (ground arith) in
              (
                (eq_iff st.schedule_type "recurring").0 recurring,
                ground arith,
                next_time-later later pattern base next,
                end,
                most,
              )
        ]
      ]

  -- After `MarkExecuted` of a recurring schedule, if adding a date moves time forward, either the
  -- schedule is completed and no longer active, or its date is later than this execution, so that
  -- `ShouldExecute` does not hold until then.
  pub mark_executed_moves_on :
      (now : ℕ) (st : ScheduledTransaction)
      → Advances add_date
      → st.schedule_type ≡ "recurring"
      → (((mark_executed add_date now st).status ≡ "completed")
          × ((mark_executed add_date now st).is_active ≡ false))
        ⊎ ((now < (mark_executed add_date now st).execute_at)
            × ((t : ℕ)
                → t < (mark_executed add_date now st).execute_at
                → should_execute t (mark_executed add_date now st) ≡ false))
  unfolding mark_executed should_execute
  mark_executed_moves_on now st later recurring =
      let st' : ScheduledTransaction = record st {
        last_executed_at = some now;
        current_occurrence = increment max_int64 st.current_occurrence;
        updated_at = now;
      } in
      let same = (eq_iff st.schedule_type "recurring").1 recurring in
      elim (Option-cases (calculate_next_execution add_date st')) [
        | inl done ↦ inl (ground arith, ground arith)
        | inr (n, p) ↦
            let (_, _, after, _, _) = calculate_next_execution_bounds st' n later p in
            inr (ground (arith, after), λ t early. ground arith)
      ]
