-- ===== src/Http/Users.antt =====
-- internal/api/v1/users.go: the handlers of one user, for administrators. What `ValidateJSON` lets
-- through is the request, if it does.
use insider_banking_project.Base.{
  ℕ, ⊤, String, str_eq, Option, none, some, Bool, ◌||◌, if◌then◌else◌,
}
use insider_banking_project.Domain.Error.{plain, wrap}
use insider_banking_project.Domain.User.{UpdateUserRequest, UserResponse}
use insider_banking_project.Repository.World.{Env, World, Result, ok, err}
use insider_banking_project.Rbac.{Verdict, passed, forbidden, require_admin}
use insider_banking_project.Service.User.{get_user, update, delete}
use insider_banking_project.Auth.Tokens.{Claims, JwtManager}
use insider_banking_project.Http.Authentication.{auth_middleware}
use insider_banking_project.Http.Reply.{
  Reply, Handler, success, failure, refused, respond_with, behind,
}
use insider_banking_project.Http.Transactions.{has_text}

abbrev pub respond_user : Result UserResponse → Reply UserResponse
respond_user (ok u) = success 200 u
respond_user (err x) = failure 404 (plain "User not found")

abbrev pub respond_update : Result UserResponse → Reply UserResponse
respond_update (ok u) = success 200 u
respond_update (err x) =
    if has_text x "failed to get user: user not found"
    then failure 404 (plain "User not found")
    else failure 400 (plain "Failed to update user")

abbrev pub respond_delete : Result ⊤ → Reply ⊤
respond_delete (ok u) = success 200 u
respond_delete (err x) =
    if has_text x "failed to get user: user not found"
      || (has_text x "failed to delete user: user not found"
          || has_text x "user not found: user not found or already inactive")
    then failure 404 (plain "User not found")
    else if has_text x "user cannot be deleted: associated transactions exist"
    then failure 409 (plain "User cannot be deleted: associated transactions exist")
    else failure 500 (wrap "Failed to delete user " x)

-- `RequireAdmin`, on the claims in the request's context
abbrev pub admin_verdict : Option Claims → Verdict
admin_verdict none = require_admin none
admin_verdict (some c) = require_admin (some (record { user_id = c.user_id; role = c.role }))

module _ {A : Type 0} where
  abbrev pub allowed : Verdict → Handler World A → Handler World A
  allowed passed k = k
  allowed (forbidden s) k = refused 403 s

  abbrev pub with_parsed_user_id : Option ℕ → (ℕ → Handler World A) → Handler World A
  with_parsed_user_id none k = refused 400 "Invalid user ID format"
  with_parsed_user_id (some id) k = k id

  abbrev pub with_user_id : (String → Option ℕ) → String → (ℕ → Handler World A) → Handler World A
  with_user_id parse_uuid text k =
      if str_eq text ""
      then refused 400 "User ID is required"
      else with_parsed_user_id (parse_uuid text) k

  -- `ValidateJSON`, which answers a request that it does not let through
  abbrev pub with_valid : {R : Type 0} → Option R → (R → Handler World A) → Handler World A
  with_valid none k = refused 422 "validation failed"
  with_valid (some r) k = k r

module _ (m : JwtManager) (parse_uuid : String → Option ℕ) (now : ℕ) {A : Type 0} where
  -- What the three share: the authentication, the check for an administrator, and the id in the
  -- path.
  unfoldable pub for_admin : (header path_id : String) → (ℕ → Handler World A) → Handler World A
  for_admin header path_id k =
      behind (auth_middleware m now header)
        λ claims. allowed (admin_verdict claims) (with_user_id parse_uuid path_id k)

module _ (e : Env) (has_cache : Bool) (m : JwtManager) (parse_uuid : String → Option ℕ)
    (now : ℕ) where
  -- `handleGetUser`
  unfoldable pub handle_get_user : (header path_id : String) → Handler World UserResponse
  handle_get_user header path_id =
      for_admin m parse_uuid now header path_id
        λ id. respond_with respond_user (get_user e has_cache id)

  -- `handleUpdateUser`
  unfoldable pub handle_update_user :
      (header path_id : String) → Option UpdateUserRequest → Handler World UserResponse
  handle_update_user header path_id body =
      for_admin m parse_uuid now header path_id
        λ id. with_valid body λ r. respond_with respond_update (update e has_cache id r)

  -- `handleDeleteUser`
  unfoldable pub handle_delete_user : (header path_id : String) → Handler World ⊤
  handle_delete_user header path_id =
      for_admin m parse_uuid now header path_id
        λ id. respond_with respond_delete (delete e has_cache id)
