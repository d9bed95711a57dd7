-- ===== src/Service/Scheduled/Outcomes.antt =====
-- How reading and cancelling a schedule can end.
use insider_banking_project.Base.{
  ℕ, ◌+◌, ◌==◌, ◌≡◌, ◌≢◌, ◌⊎◌, inl, inr, false, Bool-cases, some, Option-cases, arith,
}
use insider_banking_project.Base.Dict.{lookup}
use insider_banking_project.Domain.Error.{Error, plain, wrap}
use insider_banking_project.Domain.Scheduled.{AddDate, ScheduledTransaction}
use insider_banking_project.Repository.World.{Env, Result, ok, err}
use insider_banking_project.Repository.Scheduled.{
  Plan, get_schedule, update_schedule, scheduled_checks_ok,
}
use insider_banking_project.Service.Scheduled.{get_for_user, cancel}

-- The two tables are as they were.
abbrev pub Same : Plan → Plan → Type 0
Same p q = (q.schedules ≡ p.schedules) × (q.executions ≡ p.executions)

-- What a call with a schedule's id and a user gave: an answer, for the owner of the stored row; the
-- error of a stranger; or an error of the database, in its context.
pub data Outcome {A : Type 0} (id user_id : ℕ) (p : Plan) (r : Result A × Plan) : Type 0 where
  done :
      (a : A) (st : ScheduledTransaction)
      → r.0 ≡ ok a
      → lookup id p.schedules ≡ some st
      → st.user_id ≡ user_id
      → Outcome id user_id p r
  stranger :
      (st : ScheduledTransaction)
      → r.0 ≡ err (plain "access denied: not owner of scheduled transaction")
      → lookup id p.schedules ≡ some st
      → st.user_id ≢ user_id
      → Same p r.1
      → Outcome id user_id p r
  not_read :
      (x : Error)
      → r.0 ≡ err (wrap "failed to get scheduled transaction" x)
      → Same p r.1
      → Outcome id user_id p r
  not_written :
      (x : Error)
      → r.0 ≡ err (wrap "failed to cancel scheduled transaction" x)
      → Same p r.1
      → Outcome id user_id p r

module _ (e : Env) (add_date : AddDate) where
  pub get_for_user-Outcome :
      (id user_id : ℕ) (p : Plan) → Outcome id user_id p (get_for_user e add_date id user_id p)
  unfolding get_for_user get_schedule
  get_for_user-Outcome id user_id p = elim (Option-cases (e.fault p.world.tick)) [
    | inr (m, q) ↦
        not_read (wrap "failed to get scheduled transaction" (plain m)) (ground arith)
          (ground arith, ground arith)
    | inl fine ↦ elim (Option-cases (lookup id p.schedules)) [
      | inl gone ↦
          not_read (plain "scheduled transaction not found") (ground arith)
            (ground arith, ground arith)
      | inr (st, there) ↦ elim (Bool-cases (st.user_id == user_id)) [
        | inl owner ↦ done st st (ground arith) there (ground arith)
        | inr other ↦ stranger st (ground arith) there (ground arith) (ground arith, ground arith)
      ]
    ]
  ]

  -- The writing of the row either succeeds or leaves the tables alone.
  update_schedule-cases :
      (st : ScheduledTransaction) (p : Plan)
      → ((update_schedule e add_date st p).0 ≡ ok tt)
        ⊎ ((x : Error) × ((update_schedule e add_date st p).0 ≡ err x)
            × Same p (update_schedule e add_date st p).1)
  unfolding update_schedule
  update_schedule-cases st p = elim (Option-cases (e.fault (p.world.tick + 1))) [
    | inr (m, q) ↦ inr (
      wrap "failed to update scheduled transaction" (plain m),
      ground arith,
      (ground arith, ground arith),
    )
    | inl fine ↦ elim (Option-cases (lookup st.id p.schedules)) [
      | inl gone ↦ inl (ground arith)
      | inr (row, there) ↦ elim (Bool-cases (scheduled_checks_ok st)) [
        | inl good ↦ inl (ground arith)
        | inr bad ↦ inr (
          wrap "failed to update scheduled transaction" (plain e.violation),
          ground arith,
          (ground arith, ground arith),
        )
      ]
    ]
  ]

  pub cancel-Outcome :
      (id user_id : ℕ) (p : Plan) → Outcome id user_id p (cancel e add_date id user_id p)
  unfolding cancel get_schedule
  cancel-Outcome id user_id p = elim (Option-cases (e.fault p.world.tick)) [
    | inr (m, q) ↦
        not_read (wrap "failed to get scheduled transaction" (plain m)) (ground arith)
          (ground arith, ground arith)
    | inl fine ↦ elim (Option-cases (lookup id p.schedules)) [
      | inl gone ↦
          not_read (plain "scheduled transaction not found") (ground arith)
            (ground arith, ground arith)
      | inr (st, there) ↦ elim (Bool-cases (st.user_id == user_id)) [
        | inr other ↦ stranger st (ground arith) there (ground arith) (ground arith, ground arith)
        | inl owner ↦
            let w = p.world in
            let p2 : Plan = record p { world = record w { tick = w.tick + 1 + 1 } } in
            let st' : ScheduledTransaction = record st {
              status = "cancelled";
              is_active = false;
              updated_at = e.now (w.tick + 1);
            } in
            elim (update_schedule-cases st' p2) [
              | inl fine' ↦ done tt st (ground arith) there (ground arith)
              | inr (x, bad, same) ↦ not_written x (ground arith) (ground arith, ground arith)
            ]
      ]
    ]
  ]
