-- ===== src/Service/Scheduled/Steps.antt =====
-- The steps of processing a schedule: the transaction, the execution's record, the recurrence
-- rules, and the writing of the row.
use insider_banking_project.Base.{
  ℕ, ◌≡◌, ◌≢◌, ◌⊎◌, inl, inr, refl, true, false, Bool-cases, none, some, Option-cases, String,
  str_eq, eq_iff, arith, [], ◌∷◌, ◌++◌, ltb,
}
use insider_banking_project.Base.Int.{ℤ, leb_ℤ}
use insider_banking_project.Base.Dict.{lookup, insert}
use insider_banking_project.Domain.Scheduled.{
  AddDate, ScheduledTransaction, ScheduledTransactionExecution, some_and,
}
use insider_banking_project.Repository.World.{Env, ok}
use insider_banking_project.Repository.Scheduled.{
  Plan, create_execution, update_schedule, updated_row,
}
use insider_banking_project.Service.Transaction.Common.{Service}
use insider_banking_project.Service.Scheduled.{
  execute, recurrence_rules, by_schedule_type, completed,
}

module _ (e : Env) (add_date : AddDate) where
  pub create_execution_plan :
      (x : ScheduledTransactionExecution) (p : Plan)
      → (create_execution e add_date x p).1.schedules ≡ p.schedules
  unfolding create_execution
  create_execution_plan x p = ground arith

  pub create_execution_ok :
      (x : ScheduledTransactionExecution) (p : Plan)
      → (create_execution e add_date x p).0 ≡ ok tt
      → (create_execution e add_date x p).1.executions ≡ p.executions ++ x ∷ []
  unfolding create_execution
  create_execution_ok x p h = ground arith

  pub update_schedule_ok :
      (st row : ScheduledTransaction) (p : Plan)
      → lookup st.id p.schedules ≡ some row
      → (update_schedule e add_date st p).0 ≡ ok tt
      → ((now : ℕ) × ((update_schedule e add_date st p).1.schedules
            ≡ insert st.id (updated_row e add_date st now row) p.schedules))
        × ((update_schedule e add_date st p).1.executions ≡ p.executions)
  unfolding update_schedule
  update_schedule_ok st row p there h = ((e.now p.world.tick, ground arith), ground arith)

  -- The schedule after one more execution: it is completed, or it goes on as it is.
  abbrev pub GoesOn : ScheduledTransaction → ScheduledTransaction → Type 0
  GoesOn st st' =
      (st'.execute_at ≡ st.execute_at)
      × (st'.current_occurrence ≡ st.current_occurrence)
      × (st'.last_executed_at ≡ st.last_executed_at)
      × (st'.id ≡ st.id)
      × (((st'.status ≡ "completed")
            × (st'.is_active ≡ false)
            × (st.max_occurrences ≡ none
                → st.recurrence_end_date ≡ none
                → st.schedule_type ≢ "recurring"))
          ⊎ ((st'.status ≡ "active")
              × (st'.is_active ≡ st.is_active)
              × (st.schedule_type ≢ "one-time")
              × ((m : ℤ) → st.max_occurrences ≡ some m → leb_ℤ m st.current_occurrence ≡ false)))

module _ (e : Env) (add_date : AddDate) (s : Service) where
  pub execute_plan :
      (st : ScheduledTransaction) (p : Plan)
      → ((execute e add_date s st p).1.schedules ≡ p.schedules)
        × ((execute e add_date s st p).1.executions ≡ p.executions)
  unfolding execute
  execute_plan st p = ground arith

  not_recurring :
      (st : ScheduledTransaction) (other : String)
      → str_eq other "recurring" ≡ false
      → str_eq st.schedule_type other ≡ true
      → st.schedule_type ≢ "recurring"
  not_recurring st other differs same r =
      absurd (ground (arith, (eq_iff st.schedule_type other).0 same, (eq_iff other "recurring").1))

  by_schedule_type-GoesOn :
      (st : ScheduledTransaction)
      → ((m : ℤ) → st.max_occurrences ≡ some m → leb_ℤ m st.current_occurrence ≡ false)
      → GoesOn e add_date st (by_schedule_type e add_date s st)
  by_schedule_type-GoesOn st most = elim (Bool-cases (str_eq st.schedule_type "one-time")) [
    | inl once ↦ (
      ground arith,
      ground arith,
      ground arith,
      ground arith,
      inl (ground arith, ground arith, λ _ _ r. not_recurring st "one-time" (ground arith) once r),
    )
    | inr other ↦ elim (Bool-cases (str_eq st.schedule_type "once")) [
      | inl once ↦ (
        ground arith,
        ground arith,
        ground arith,
        ground arith,
        inl (ground arith, ground arith, λ _ _ r. not_recurring st "once" (ground arith) once r),
      )
      | inr recurring ↦ (
        ground arith,
        ground arith,
        ground arith,
        ground arith,
        inr (
          ground arith,
          ground arith,
          λ h. absurd (ground (arith, (eq_iff st.schedule_type "one-time").1 h)),
          most,
        ),
      )
    ]
  ]

  completed-GoesOn :
      (st : ScheduledTransaction)
      → (st.max_occurrences ≡ none → st.recurrence_end_date ≡ none → st.schedule_type ≢ "recurring")
      → GoesOn e add_date st (completed e add_date s st)
  completed-GoesOn st limited = (refl, refl, refl, refl, inl (refl, refl, limited))

  -- The recurrence rules give a schedule, and change no table.
  pub recurrence_rules-GoesOn :
      (st : ScheduledTransaction) (p : Plan)
      → (st' : ScheduledTransaction) × ((recurrence_rules e add_date s st p).0 ≡ ok st')
        × GoesOn e add_date st st'
        × ((recurrence_rules e add_date s st p).1.schedules ≡ p.schedules)
        × ((recurrence_rules e add_date s st p).1.executions ≡ p.executions)
  unfolding recurrence_rules
  recurrence_rules-GoesOn st p =
      elim (Bool-cases (some_and (λ n. leb_ℤ n st.current_occurrence) st.max_occurrences)) [
        | inl full ↦ (
          completed e add_date s st,
          ground arith,
          completed-GoesOn st (λ m _ _. ground arith),
          ground arith,
          ground arith,
        )
        | inr more ↦
            let most : (m : ℤ)
                → st.max_occurrences ≡ some m
                → leb_ℤ m st.current_occurrence ≡ false =
              λ m q. ground arith in
            elim (Option-cases st.recurrence_end_date) [
              | inl open_end ↦ (
                by_schedule_type e add_date s st,
                ground arith,
                by_schedule_type-GoesOn st most,
                ground arith,
                ground arith,
              )
              | inr (d, q) ↦ elim (Bool-cases (ltb d (e.now p.world.tick))) [
                | inl past ↦ (
                  completed e add_date s st,
                  ground arith,
                  completed-GoesOn st (λ _ n _. ground arith),
                  ground arith,
                  ground arith,
                )
                | inr before ↦ (
                  by_schedule_type e add_date s st,
                  ground arith,
                  by_schedule_type-GoesOn st most,
                  ground arith,
                  ground arith,
                )
              ]
            ]
      ]
