-- ===== src/Http/HandlerTests.antt =====
-- Requests to the handlers: a token library that accepts every token as an administrator's or a
-- user's, and one that reads tokens.
use Prim.Native.String.{◌++◌}
use insider_banking_project.Base.{
  ℕ, ◌≡◌, ◌⊎◌, refl, ap, zero, suc, String, Option, none, some, true,
}
use insider_banking_project.Base.Int.{◌+ℤ◌, ◌-ℤ◌}
use insider_banking_project.Base.Dict.{lookup, insert}
use insider_banking_project.Domain.Error.{plain}
use insider_banking_project.Domain.Transaction.{
  Transaction, status_success, validate_transaction_amount,
}
use insider_banking_project.Domain.Balance.{is_valid_currency, one_of, supported_currencies}
use insider_banking_project.Repository.Numeric.{to_numeric}
use insider_banking_project.Repository.World.{ok}
use insider_banking_project.Repository.Balances.{get_by_user_id, upsert}
use insider_banking_project.Repository.Constraints.{balance_row_ok, transaction_row_ok}
use insider_banking_project.Repository.Journal.{audit_log}
use insider_banking_project.Repository.Scheduled.{get_schedule}
use insider_banking_project.Repository.Transactions.{
  create_pending, get_by_id, mark_completed, update_transaction_status,
}
use insider_banking_project.Rbac.{has_role, is_admin, require_admin, require_role}
use insider_banking_project.Domain.Error.{Error}
use insider_banking_project.Repository.World.{err}
use insider_banking_project.Repository.Users.{get_user_by_id, delete_user}
use insider_banking_project.Repository.Cache.{invalidate_user_cache}
use insider_banking_project.Service.User.{delete, delete_finish}
use insider_banking_project.Service.User.Deletion.{IsDeleted}
use insider_banking_project.Http.Users.{for_admin, handle_delete_user}
use insider_banking_project.Http.Administration.{handle_delete_user_deletes}
use insider_banking_project.Service.Balance.{current_from_database, get_current}
use insider_banking_project.Service.Scheduled.{cancel, get_for_user}
use insider_banking_project.Service.Scheduled.Tests.{days_later, plan, schedule}
use insider_banking_project.Service.Tests.{calm, service, world}
use insider_banking_project.Service.Transaction.Common.{
  after_success, increment_transaction_counter, is_not_found_error, refresh_cache,
}
use insider_banking_project.Service.Transaction.Rollback.{
  balance_for_rollback, execute_rollback, rollback_by_admin, rollback_credit, rollback_debit,
  rollback_finish, rollback_plan, rollback_refresh_cache, rollback_sync, rollback_transaction,
  rollback_transfer, write_rollback,
}
use insider_banking_project.Auth.Samples.{manager, unary, spell_claims}
use insider_banking_project.Auth.Tokens.{
  Claims, Holder, JwtManager, new_claims, access_token_type, access_token_duration,
  validate_access_token, validate_token,
}
use insider_banking_project.Http.Authentication.{auth_middleware, trim_prefix}
use insider_banking_project.Http.Bearer.{Brings}
use insider_banking_project.Http.Reply.{success, failure, split_path, part}
use insider_banking_project.Http.Schedules.{
  handle_one, handle_get_scheduled_transaction, handle_cancel_scheduled_transaction,
}
use insider_banking_project.Http.Ownership.{Guarded, handlers_guard_schedules}
use insider_banking_project.Http.Transactions.{handle_rollback_transaction}
use insider_banking_project.Http.Permission.{handle_rollback_needs_right}

letters : String → ℕ
letters String.[] = 0
letters (String.◌∷◌ c s) = suc (letters s)

parse_unary : String → Option ℕ
parse_unary String.[] = none
parse_unary (String.◌∷◌ c s) = some (letters s)

letters-unary : (n : ℕ) → letters (unary n) ≡ suc n
unfolding letters
letters-unary zero = refl
letters-unary (suc n) = ap suc (letters-unary n)

parse_unary-unary : (n : ℕ) → parse_unary (unary n) ≡ some n
unfolding parse_unary letters
parse_unary-unary zero = refl
parse_unary-unary (suc n) = ap some (letters-unary n)

abbrev holder_numbered : ℕ → Holder
holder_numbered n = record { user_id = n; username = "ann"; email = "ann@bank.io"; role = "user" }

abbrev header_of : ℕ → String
header_of n =
    "Bearer "
    ++ spell_claims
        (new_claims manager 8 3 (holder_numbered n) access_token_type access_token_duration)

-- A library that takes every token for one of the user `n` in a role.
abbrev claims_of : ℕ → String → Claims
claims_of n role =
    new_claims manager 8 3 (record (holder_numbered n) { role = role }) access_token_type
      access_token_duration

abbrev trusting : ℕ → String → JwtManager
trusting n role = record (manager) {
  jwt = record {
    signed_string = λ key c. ok "token";
    parse_with_claims = λ key_of now token. ok (record { claims = claims_of n role; valid = true });
  };
}

owner_reads :
    (handle_get_scheduled_transaction calm days_later
      (trusting 1 "user")
      parse_unary
      70
      "Bearer t"
      "uuuuuuuu"
      plan).0
    ≡ success 200 schedule
unfolding handle_get_scheduled_transaction handle_one auth_middleware validate_access_token
    validate_token new_claims trim_prefix parse_unary letters get_for_user get_schedule lookup
owner_reads = refl

stranger_is_forbidden :
    (handle_cancel_scheduled_transaction calm days_later
      (trusting 2 "user")
      parse_unary
      70
      "Bearer t"
      "uuuuuuuu"
      plan).0
    ≡ failure 403 (plain "Access denied")
unfolding handle_cancel_scheduled_transaction handle_one auth_middleware validate_access_token
    validate_token new_claims trim_prefix parse_unary letters cancel get_schedule lookup
stranger_is_forbidden = refl

abbrev rollback_path : String
rollback_path = "/api/v1/transactions/uuuuuuuuuuuuuu/rollback"

handle_rollback_needs_right_example :
    (c : Claims) × (id : ℕ) × (t : Transaction) × Brings (trusting 9 "admin") 70 "Bearer t" c
    × ((text : String) × (part 4 (split_path rollback_path) ≡ some text)
        × (parse_unary text ≡ some id))
    × (lookup id world.db.transactions ≡ some t)
    × (t.status ≡ status_success)
    × ((c.role ≡ "admin") ⊎ (t.from_user_id ≡ some c.user_id))
unfolding lookup insert ◌+ℤ◌ ◌-ℤ◌ supported_currencies one_of is_valid_currency
    validate_transaction_amount balance_row_ok transaction_row_ok get_by_user_id upsert to_numeric
    create_pending update_transaction_status mark_completed audit_log current_from_database
    get_current is_not_found_error increment_transaction_counter refresh_cache after_success
    get_by_id rollback_plan balance_for_rollback write_rollback rollback_credit rollback_debit
    rollback_transfer execute_rollback rollback_refresh_cache rollback_finish rollback_transaction
    rollback_sync rollback_by_admin handle_rollback_transaction auth_middleware
    validate_access_token validate_token new_claims trim_prefix parse_unary letters split_path
    is_admin has_role
handle_rollback_needs_right_example =
    handle_rollback_needs_right calm service (trusting 9 "admin") parse_unary 70 parse_unary-unary
      "Bearer t" rollback_path world refl

handle_delete_user_deletes_example :
    (c : Claims) × (id : ℕ) × Brings (trusting 9 "admin") 70 "Bearer t" c
    × (c.role ≡ "admin")
    × (parse_unary "uuu" ≡ some id)
    × IsDeleted id world
        (handle_delete_user calm true (trusting 9 "admin") parse_unary 70 "Bearer t" "uuu" world).1
    × ((x : Error) × ((get_user_by_id calm id
            (handle_delete_user calm true
              (trusting 9 "admin")
              parse_unary
              70
              "Bearer t"
              "uuu"
              world).1).0
          ≡ err x))
unfolding handle_delete_user for_admin require_admin require_role auth_middleware
    validate_access_token validate_token new_claims trim_prefix parse_unary letters delete
    delete_finish get_user_by_id delete_user lookup insert invalidate_user_cache audit_log
handle_delete_user_deletes_example =
    handle_delete_user_deletes calm true (trusting 9 "admin") parse_unary 70 "Bearer t" "uuu" world
      refl

handlers_guard_schedules_example :
    Guarded manager parse_unary 70 (header_of 1) "uuuuuuuu" plan (
      handle_get_scheduled_transaction calm days_later manager parse_unary 70
        (header_of 1)
        "uuuuuuuu"
        plan)
    × Guarded manager parse_unary 70 (header_of 1) "uuuuuuuu" plan (
        handle_cancel_scheduled_transaction calm days_later manager parse_unary 70
          (header_of 1)
          "uuuuuuuu"
          plan)
handlers_guard_schedules_example =
    handlers_guard_schedules calm days_later manager parse_unary 70 parse_unary-unary (header_of 1)
      "uuuuuuuu" plan
