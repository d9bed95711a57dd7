-- ===== src/Service/Scheduled/Laws.antt =====
-- What processing a scheduled transaction, or cancelling it, does to the tables.
use insider_banking_project.Base.{
  ℕ, ◌+◌, ◌≤◌, ◌<◌, ◌≡◌, ◌≢◌, ◌⊎◌, inl, inr, refl, sym, ap, ◌∙◌, true, false, Bool-cases, none,
  some, Option-cases, eq_iff, arith, [], ◌∷◌, ◌++◌, ◌==◌,
}
use insider_banking_project.Base.Int.{ℤ, leb_ℤ, increment, max_int64}
use insider_banking_project.Base.Dict.{lookup, insert, lookup-insert_self}
use insider_banking_project.Domain.Error.{Error}
use insider_banking_project.Domain.Scheduled.{
  AddDate, ScheduledTransaction, ScheduledTransactionExecution,
}
use insider_banking_project.Domain.Transaction.{TransactionResponse}
use insider_banking_project.Repository.World.{Env, ok, err, Result-cases}
use insider_banking_project.Repository.Scheduled.{
  Plan, is_due, create_execution, update_schedule, updated_row, get_schedule,
}
use insider_banking_project.Service.Transaction.Common.{Service}
use insider_banking_project.Service.Scheduled.{
  execute, process, record_result, recurrence_rules, execution, store, cancel,
}
use insider_banking_project.Service.Scheduled.Steps.{
  create_execution_plan, create_execution_ok, update_schedule_ok, execute_plan,
  recurrence_rules-GoesOn,
}

-- What a successful execution of the schedule `st`, which is the stored row, leaves in the tables:
-- one more execution, and the row with one more occurrence, the same date, and either completed or
-- as active as before.
pub data Executed (st : ScheduledTransaction) (before after : Plan) : Type 0 where
  executed :
      (row : ScheduledTransaction) (x : ScheduledTransactionExecution)
      → after.schedules ≡ insert st.id row before.schedules
      → after.executions ≡ before.executions ++ x ∷ []
      → x.status ≡ "success"
      → x.scheduled_transaction_id ≡ st.id
      → row.last_executed_at ≡ some x.executed_at
      → row.current_occurrence ≡ increment max_int64 st.current_occurrence
      → row.execute_at ≡ st.execute_at
      → row.schedule_type ≡ st.schedule_type
      → ((row.status ≡ "completed")
          × (row.is_active ≡ false)
          × (st.max_occurrences ≡ none
              → st.recurrence_end_date ≡ none
              → st.schedule_type ≢ "recurring"))
        ⊎ ((row.status ≡ "active")
            × (row.is_active ≡ st.is_active)
            × (st.schedule_type ≢ "one-time")
            × ((m : ℤ)
                → st.max_occurrences ≡ some m
                → leb_ℤ m (increment max_int64 st.current_occurrence) ≡ false))
      → Executed st before after

Executed-from :
    {st : ScheduledTransaction} {before before' after after' : Plan}
    → before'.schedules ≡ before.schedules
    → before'.executions ≡ before.executions
    → after' ≡ after
    → Executed st before' after'
    → Executed st before after
Executed-from {st} same same_x to (executed row x put rec success of last count date type end) =
    executed row x (ap (λ z. z.schedules) (sym to) ∙ put ∙ ap (insert st.id row) same)
      (ap (λ z. z.executions) (sym to) ∙ rec ∙ ap (λ z. z ++ x ∷ []) same_x) success of last count
      date type end

is_due_active :
    (row : ScheduledTransaction) (now : ℕ)
    → row.is_active ≡ true
    → row.status ≡ "active"
    → row.execute_at ≤ now
    → row.schedule_type ≡ "recurring"
    → row.updated_at + 1000000000 < now
    → is_due now row ≡ true
unfolding is_due
is_due_active row now on status date type later =
    let a = (eq_iff row.status "active").1 status in
    let b = (eq_iff row.schedule_type "recurring").1 type in ground arith

module _ (e : Env) (add_date : AddDate) (s : Service) where
  store_ok :
      (st row : ScheduledTransaction) (p : Plan)
      → lookup st.id p.schedules ≡ some row
      → (store e add_date s st p).0 ≡ ok tt
      → ((now : ℕ) × ((store e add_date s st p).1.schedules
            ≡ insert st.id
                (updated_row e add_date (record st { updated_at = e.now p.world.tick }) now row)
                p.schedules))
        × ((store e add_date s st p).1.executions ≡ p.executions)
  unfolding store
  store_ok st row p there h =
      let p' : Plan = record p { world = record (p.world) { tick = p.world.tick + 1 } } in
      let ((now, put), kept) =
        update_schedule_ok e add_date (record st { updated_at = e.now p.world.tick }) row p' there
          (ground arith) in
      ((now, put), kept)

  record_result-Executed :
      (st : ScheduledTransaction) (r : TransactionResponse) (p : Plan)
      → lookup st.id p.schedules ≡ some st
      → (record_result e add_date s st (ok r) p).0 ≡ ok tt
      → Executed st p (record_result e add_date s st (ok r) p).1
  unfolding record_result
  record_result-Executed st r p there h =
      let w = p.world in
      let now = e.now (w.tick + 1) in
      let p1 : Plan = record p { world = record w { tick = w.tick + 1 + 1 } } in
      let x = execution e add_date s st (e.new_uuid w.tick) now "success" (some r.id) none in
      let created = create_execution e add_date x p1 in
      let st1 : ScheduledTransaction = record st {
        last_executed_at = some now;
        current_occurrence = increment max_int64 st.current_occurrence;
      } in
      elim (Result-cases created.0) [
        | inr (y, q) ↦ absurd (ground arith)
        | inl (_, q) ↦
            let (st2, gives, goes, same, same_x) =
              recurrence_rules-GoesOn e add_date s st1 created.1 in
            let (date, count, last, id, end) = goes in
            let p2 = (recurrence_rules e add_date s st1 created.1).1 in
            let still : lookup st2.id p2.schedules ≡ some st =
              ap (λ z. lookup z p2.schedules) id
              ∙ ap (lookup st.id) same
              ∙ ap (lookup st.id) (create_execution_plan e add_date x p1)
              ∙ there in
            let reaches : record_result e add_date s st (ok r) p ≡ store e add_date s st2 p2 =
              ground arith in
            let ((at, put), kept) = store_ok st2 st p2 still (ap (λ z. z.0) (sym reaches) ∙ h) in
            let row =
              updated_row e add_date (record st2 { updated_at = e.now p2.world.tick }) at st in
            executed row x
              (ap (λ z. z.1.schedules) reaches
                ∙ put
                ∙ ap (λ z. insert z row p2.schedules) id
                ∙ ap (insert st.id row) (same ∙ create_execution_plan e add_date x p1))
              (ap (λ z. z.1.executions) reaches
                ∙ kept
                ∙ same_x
                ∙ create_execution_ok e add_date x p1 q)
              refl refl last count date refl end
      ]

  record_result_err :
      (st : ScheduledTransaction) (x : Error) (p : Plan)
      → (record_result e add_date s st (err x) p).0 ≡ ok tt
      → ⊥
  unfolding record_result
  record_result_err st x p h = ground arith

  -- Processing an active stored schedule that succeeds appends one execution with the status
  -- "success", and writes the schedule's row: one more occurrence, executed last at the time of
  -- that execution, with the same date; and it is either completed and inactive or, if it is not
  -- one-time and the occurrences are below the maximum, active still.
  pub process-Executed :
      (st : ScheduledTransaction) (p : Plan)
      → st.is_active ≡ true
      → lookup st.id p.schedules ≡ some st
      → (process e add_date s st p).0 ≡ ok tt
      → Executed st p (process e add_date s st p).1
  unfolding process
  process-Executed st p active there h =
      let ran = execute e add_date s st p in
      let (same, same_x) = execute_plan e add_date s st p in
      elim (Result-cases ran.0) [
        | inr (y, q) ↦ absurd (ground arith)
        | inl (answer, q) ↦
            let reaches : process e add_date s st p ≡ record_result e add_date s st answer ran.1 =
              ground arith in
            let good = ap (λ z. z.0) (sym reaches) ∙ h in
            elim (Result-cases answer) [
              | inr (x, k) ↦ absurd (
                  record_result_err st x ran.1
                    (ap (λ z. (record_result e add_date s st z ran.1).0) (sym k) ∙ good))
              | inl (r, k) ↦
                  let to : record_result e add_date s st (ok r) ran.1 ≡ process e add_date s st p =
                    ap (λ z. record_result e add_date s st z ran.1) (sym k) ∙ sym reaches in
                  Executed-from same same_x (ap (λ z. z.1) to) (
                    record_result-Executed st r ran.1 (ap (lookup st.id) same ∙ there)
                      (ap (λ z. z.0) to ∙ h))
            ]
      ]

  -- A recurring schedule without a maximum and without an end date, once it was due and processing
  -- it has succeeded, is due again: its row is still active with the same date, so that the query
  -- for due schedules selects it at every time from that date on, one second after its last
  -- writing, and not only at its next date.
  pub process_stays_due :
      (st : ScheduledTransaction) (p : Plan)
      → st.is_active ≡ true
      → st.schedule_type ≡ "recurring"
      → st.max_occurrences ≡ none
      → st.recurrence_end_date ≡ none
      → lookup st.id p.schedules ≡ some st
      → (process e add_date s st p).0 ≡ ok tt
      → (row : ScheduledTransaction) × (lookup st.id (process e add_date s st p).1.schedules
          ≡ some row)
        × ((now : ℕ)
            → st.execute_at ≤ now
            → row.updated_at + 1000000000 < now
            → is_due now row ≡ true)
  process_stays_due st p active recurring unlimited endless there h =
      elim (process-Executed st p active there h) [
        | executed row x put rec success of last count date type (inl (done, off, limited)) ↦
            absurd (limited unlimited endless recurring)
        | executed row x put rec success of last count date type (inr (status, on, _, _)) ↦ (
          row,
          ap (lookup st.id) put ∙ lookup-insert_self st.id row p.schedules,
          λ now after later.
              is_due_active row now (on ∙ active) status (rw date after) (type ∙ recurring) later,
        )
      ]

module _ (e : Env) (add_date : AddDate) where
  -- A successful cancellation of a stored schedule was asked for by its owner, and leaves a row
  -- that is cancelled and never due.
  pub cancel_stops :
      (id user_id : ℕ) (st : ScheduledTransaction) (p : Plan)
      → lookup id p.schedules ≡ some st
      → st.id ≡ id
      → (cancel e add_date id user_id p).0 ≡ ok tt
      → (st.user_id ≡ user_id)
        × (row : ScheduledTransaction) × (lookup id (cancel e add_date id user_id p).1.schedules
            ≡ some row)
        × (row.status ≡ "cancelled")
        × ((now : ℕ) → is_due now row ≡ false)
  unfolding cancel get_schedule is_due
  cancel_stops id user_id st p there same h =
      let w = p.world in
      let p2 : Plan = record p { world = record w { tick = w.tick + 1 + 1 } } in
      let st' : ScheduledTransaction = record st {
        status = "cancelled";
        is_active = false;
        updated_at = e.now (w.tick + 1);
      } in
      elim (Option-cases (e.fault w.tick)) [
        | inr (m, q) ↦ absurd (ground arith)
        | inl fine ↦ elim (Bool-cases (st.user_id == user_id)) [
          | inr other ↦ absurd (ground arith)
          | inl owner ↦
              let ((now, put), kept) =
                update_schedule_ok e add_date st' st p2
                  (ap (λ z. lookup z p.schedules) same ∙ there) (ground arith) in
              let row = updated_row e add_date st' now st in
              let reaches : (cancel e add_date id user_id p).1.schedules
                  ≡ (update_schedule e add_date st' p2).1.schedules =
                ground arith in
              (
                ground arith,
                row,
                ap (lookup id) (reaches ∙ put ∙ ap (λ z. insert z row p.schedules) same)
                    ∙ lookup-insert_self id row p.schedules,
                refl,
                λ now'. refl,
              )
        ]
      ]
