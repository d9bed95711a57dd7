-- ===== src/Http/Schedules.antt =====
-- internal/api/v1/scheduled_transactions.go: the handlers that make, read and cancel one scheduled
-- transaction.
use insider_banking_project.Base.{ℕ, ⊤, Bool, String, str_eq, Option, none, some, if◌then◌else◌}
use insider_banking_project.Domain.Error.{Error, plain, codes, codes_eq, message}
use insider_banking_project.Domain.Scheduled.{
  AddDate, ScheduledTransaction, ScheduledTransactionRequest,
}
use insider_banking_project.Repository.World.{Env, Result, ok, err}
use insider_banking_project.Repository.Scheduled.{P, Plan}
use insider_banking_project.Service.Scheduled.{create, get_for_user, cancel}
use insider_banking_project.Auth.Tokens.{JwtManager}
use insider_banking_project.Http.Authentication.{auth_middleware}
use insider_banking_project.Http.Reply.{
  Reply, Handler, success, failure, refused, respond_with, respond_created, as_user, behind,
}

abbrev pub is_not_owner : Error → Bool
is_not_owner x = codes_eq (message x) (codes "access denied: not owner of scheduled transaction")

module _ {A : Type 0} where
  -- What follows when the service of one schedule has answered.
  abbrev pub respond_one : Result A → Reply A
  respond_one (ok a) = success 200 a
  respond_one (err x) =
      if is_not_owner x
      then failure 403 (plain "Access denied")
      else failure 404 (plain "Scheduled transaction not found")

module _ (parse_uuid : String → Option ℕ) {A : Type 0} where
  abbrev pub with_parsed_id : Option ℕ → (ℕ → Handler Plan A) → Handler Plan A
  with_parsed_id none k = refused 400 "Invalid scheduled transaction ID format"
  with_parsed_id (some id) k = k id

  abbrev pub with_id : String → (ℕ → Handler Plan A) → Handler Plan A
  with_id text k =
      if str_eq text ""
      then refused 400 "Scheduled transaction ID is required"
      else with_parsed_id (parse_uuid text) k

module _ (m : JwtManager) (parse_uuid : String → Option ℕ) (now : ℕ) {A : Type 0} where
  -- What the handlers of a schedule's id share: the authentication, the user's id, the id in the
  -- path, and the answer of a service that takes both ids.
  unfoldable pub handle_one : (ℕ → ℕ → P A) → (header path_id : String) → Handler Plan A
  handle_one service header path_id = behind (auth_middleware m now header) λ claims.
      as_user m parse_uuid claims
        λ user_id. with_id parse_uuid path_id λ id. respond_with respond_one (service id user_id)

module _ (e : Env) (add_date : AddDate) (m : JwtManager) (parse_uuid : String → Option ℕ)
    (now : ℕ) where
  -- `handleScheduleTransaction`, behind `ValidateJSON`, which gives it the request
  unfoldable pub handle_schedule_transaction :
      (header : String) → ScheduledTransactionRequest → Handler Plan ScheduledTransaction
  handle_schedule_transaction header r = behind (auth_middleware m now header) λ claims.
      as_user m parse_uuid claims
        λ user_id. respond_with respond_created (create e add_date user_id r)

  -- `handleGetScheduledTransaction`
  unfoldable pub handle_get_scheduled_transaction :
      (header path_id : String) → Handler Plan ScheduledTransaction
  handle_get_scheduled_transaction = handle_one m parse_uuid now (get_for_user e add_date)

  -- `handleCancelScheduledTransaction`
  unfoldable pub handle_cancel_scheduled_transaction : (header path_id : String) → Handler Plan ⊤
  handle_cancel_scheduled_transaction = handle_one m parse_uuid now (cancel e add_date)
