-- ===== src/Http/Ownership.antt =====
-- Whom the handlers of one schedule answer.
use insider_banking_project.Base.{
  ℕ, ◌≡◌, ◌≢◌, ◌⊎◌, inl, inr, refl, ap, ◌∙◌, String, str_eq, Option, none, some, Bool-cases,
  Option-cases, false, eq_iff,
}
use insider_banking_project.Base.Dict.{lookup}
use insider_banking_project.Domain.Error.{Error, plain}
use insider_banking_project.Domain.Scheduled.{AddDate, ScheduledTransaction}
use insider_banking_project.Repository.World.{Env}
use insider_banking_project.Repository.Scheduled.{P, Plan}
use insider_banking_project.Service.Scheduled.{get_for_user, cancel}
use insider_banking_project.Service.Scheduled.Outcomes.{
  Same, Outcome, done, stranger, not_read, not_written, get_for_user-Outcome, cancel-Outcome,
}
use insider_banking_project.Auth.Tokens.{Claims, JwtManager}
use insider_banking_project.Http.Authentication.{passes, auth_middleware}
use insider_banking_project.Http.Bearer.{Brings, auth_middleware_sound}
use insider_banking_project.Http.Reply.{Reply, success, failure, respond_with}
use insider_banking_project.Http.Schedules.{
  respond_one, with_id, handle_one, handle_get_scheduled_transaction,
  handle_cancel_scheduled_transaction,
}

-- What a request with a header and an id in its path can get: 200, if a valid token names the owner
-- of the stored row with that id; 403, if it names another user; and 400, 401 or 404. Only 200 may
-- change the tables.
pub data Guarded (m : JwtManager) (parse_uuid : String → Option ℕ) (now : ℕ) {A : Type 0}
    (header path_id : String) (p : Plan) (r : Reply A × Plan) : Type 0 where
  granted :
      (a : A) (c : Claims) (id : ℕ) (st : ScheduledTransaction)
      → r.0 ≡ success 200 a
      → Brings m now header c
      → parse_uuid path_id ≡ some id
      → lookup id p.schedules ≡ some st
      → st.user_id ≡ c.user_id
      → Guarded m parse_uuid now header path_id p r
  forbidden :
      (c : Claims) (id : ℕ) (st : ScheduledTransaction)
      → r.0 ≡ failure 403 (plain "Access denied")
      → Brings m now header c
      → parse_uuid path_id ≡ some id
      → lookup id p.schedules ≡ some st
      → st.user_id ≢ c.user_id
      → Same p r.1
      → Guarded m parse_uuid now header path_id p r
  not_found :
      (c : Claims) (id : ℕ)
      → r.0 ≡ failure 404 (plain "Scheduled transaction not found")
      → Brings m now header c
      → parse_uuid path_id ≡ some id
      → Same p r.1
      → Guarded m parse_uuid now header path_id p r
  bad_id :
      (c : Claims) (x : Error)
      → r ≡ (failure 400 x, p)
      → Brings m now header c
      → (path_id ≡ "") ⊎ (parse_uuid path_id ≡ none)
      → Guarded m parse_uuid now header path_id p r
  no_token : (x : Error) → r ≡ (failure 401 x, p) → Guarded m parse_uuid now header path_id p r

module _ (m : JwtManager) (parse_uuid : String → Option ℕ) (now : ℕ) (header path_id : String)
    (p : Plan) {A : Type 0} (service : ℕ → ℕ → P A)
    (round_trip : (u : ℕ) → parse_uuid (m.uuid_string u) ≡ some u) where
  -- With a user, the id in the path is next.
  handle_one_user :
      (c : Claims)
      → auth_middleware m now header ≡ passes (some c)
      → handle_one m parse_uuid now service header path_id p
        ≡ with_id parse_uuid path_id (λ id. respond_with respond_one (service id c.user_id)) p
  unfolding handle_one
  handle_one_user c passed = rw (passed, round_trip c.user_id) refl

  handle_one_id :
      (c : Claims) (id : ℕ)
      → auth_middleware m now header ≡ passes (some c)
      → str_eq path_id "" ≡ false
      → parse_uuid path_id ≡ some id
      → handle_one m parse_uuid now service header path_id p
        ≡ respond_with respond_one (service id c.user_id) p
  handle_one_id c id passed given parsed = handle_one_user c passed ∙ rw (given, parsed) refl

  -- The reply to what the service gave.
  answered-Guarded :
      (c : Claims) (id : ℕ)
      → Brings m now header c
      → parse_uuid path_id ≡ some id
      → handle_one m parse_uuid now service header path_id p
        ≡ respond_with respond_one (service id c.user_id) p
      → Outcome id c.user_id p (service id c.user_id p)
      → Guarded m parse_uuid now header path_id p
          (handle_one m parse_uuid now service header path_id p)
  answered-Guarded c id token parsed to (done a st h there owner) =
      granted a c id st (ap (λ r. r.0) to ∙ ap respond_one h) token parsed there owner
  answered-Guarded c id token parsed to (stranger st h there other (same, same_x)) =
      forbidden c id st (ap (λ r. r.0) to ∙ ap respond_one h) token parsed there other
        (ap (λ r. r.1.schedules) to ∙ same, ap (λ r. r.1.executions) to ∙ same_x)
  answered-Guarded c id token parsed to (not_read x h (same, same_x)) =
      not_found c id (ap (λ r. r.0) to ∙ ap respond_one h) token parsed
        (ap (λ r. r.1.schedules) to ∙ same, ap (λ r. r.1.executions) to ∙ same_x)
  answered-Guarded c id token parsed to (not_written x h (same, same_x)) =
      not_found c id (ap (λ r. r.0) to ∙ ap respond_one h) token parsed
        (ap (λ r. r.1.schedules) to ∙ same, ap (λ r. r.1.executions) to ∙ same_x)

  handle_one-Guarded :
      ((id u : ℕ) → Outcome id u p (service id u p))
      → Guarded m parse_uuid now header path_id p
          (handle_one m parse_uuid now service header path_id p)
  unfolding handle_one
  handle_one-Guarded outcome = elim (auth_middleware_sound m now header) [
    | inr (message, refused, _, _) ↦ no_token (plain message) (rw refused refl)
    | inl (c, passed, token, _) ↦ elim (Bool-cases (str_eq path_id "")) [
      | inl empty ↦
          bad_id c (plain "Scheduled transaction ID is required")
            (handle_one_user c passed ∙ rw empty refl) token (inl ((eq_iff path_id "").0 empty))
      | inr given ↦ elim (Option-cases (parse_uuid path_id)) [
        | inl wrong ↦
            bad_id c (plain "Invalid scheduled transaction ID format")
              (handle_one_user c passed ∙ rw (given, wrong) refl) token (inr wrong)
        | inr (id, parsed) ↦
            answered-Guarded c id token parsed (handle_one_id c id passed given parsed)
              (outcome id c.user_id)
      ]
    ]
  ]

module _ (e : Env) (add_date : AddDate) (m : JwtManager) (parse_uuid : String → Option ℕ) (now : ℕ)
    (round_trip : (u : ℕ) → parse_uuid (m.uuid_string u) ≡ some u) where
  -- Where parsing undoes the printing of an id, the handlers that read and that cancel a schedule
  -- reply 200 only to a valid access token of the owner of the stored row with the path's id, and
  -- 403 only to one of another user; every other reply is 400, 401 or 404; and none but 200 changes
  -- the schedules or their executions.
  pub handlers_guard_schedules :
      (header path_id : String) (p : Plan)
      → Guarded m parse_uuid now header path_id p
          (handle_get_scheduled_transaction e add_date m parse_uuid now header path_id p)
        × Guarded m parse_uuid now header path_id p
            (handle_cancel_scheduled_transaction e add_date m parse_uuid now header path_id p)
  unfolding handle_get_scheduled_transaction handle_cancel_scheduled_transaction
  handlers_guard_schedules header path_id p = (
    handle_one-Guarded m parse_uuid now header path_id p (get_for_user e add_date) round_trip
        (λ id u. get_for_user-Outcome e add_date id u p),
    handle_one-Guarded m parse_uuid now header path_id p (cancel e add_date) round_trip
        (λ id u. cancel-Outcome e add_date id u p),
  )
