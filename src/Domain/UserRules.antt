-- ===== src/Domain/UserRules.antt =====
-- internal/domain/user.go: the validation of users and of the requests about them. Lengths are in
-- bytes.
use Prim.Native.String.{len}
use insider_banking_project.Base.{not, ◌&&◌, ◌||◌, String, str_eq, Option, none, ltb, if◌then◌else◌}
use insider_banking_project.Domain.Error.{Error, codes, require, ◌then_check◌, in_context}
use insider_banking_project.Domain.Transaction.{lower_is}
use insider_banking_project.Domain.Patterns.{matches_username, matches_email}
use insider_banking_project.Domain.User.{
  User, CreateUserRequest, UpdateUserRequest, LoginRequest, RefreshRequest, role_user, role_admin,
}

unfoldable pub validate_username : String → Option Error
unfolding matches_username
validate_username username =
    require (not (str_eq username "")) "username is required"
    then_check require (not (ltb (len username) 3)) "username must be at least 3 characters"
    then_check require (not (ltb 50 (len username))) "username must be at most 50 characters"
    then_check require (matches_username (codes username))
        "username can only contain letters, numbers, and underscores"

unfoldable pub validate_email : String → Option Error
unfolding matches_email
validate_email email =
    require (not (str_eq email "")) "email is required"
    then_check require (not (ltb 255 (len email))) "email must be at most 255 characters"
    then_check require (matches_email (codes email)) "invalid email format"

unfoldable pub validate_password : String → Option Error
validate_password password =
    require (not (str_eq password "")) "password is required"
    then_check require (not (ltb (len password) 8)) "password must be at least 8 characters"
    then_check require (not (ltb 72 (len password))) "password must be at most 72 characters"

unfoldable pub validate_role : String → Option Error
validate_role role =
    require (lower_is role role_user || lower_is role role_admin)
      "invalid role, must be 'user' or 'admin'"

-- `(*User).Validate`
unfoldable pub user_validate : User → Option Error
unfolding validate_username validate_email validate_role
user_validate u =
    in_context "username" (validate_username u.username)
    then_check in_context "email" (validate_email u.email)
    then_check in_context "role" (validate_role u.role)

-- `(*CreateUserRequest).Validate`
unfoldable pub create_user_request_validate : CreateUserRequest → Option Error
unfolding validate_username validate_email validate_password validate_role
create_user_request_validate r =
    in_context "username" (validate_username r.username)
    then_check in_context "email" (validate_email r.email)
    then_check in_context "password" (validate_password r.password)
    then_check (if str_eq r.role "" then none else in_context "role" (validate_role r.role))

-- `(*LoginRequest).Validate`
unfoldable pub login_request_validate : LoginRequest → Option Error
unfolding validate_email
login_request_validate r =
    in_context "email" (validate_email r.email)
    then_check require (not (str_eq r.password "")) "password: password is required"

-- `(*RefreshRequest).Validate`
unfoldable pub refresh_request_validate : RefreshRequest → Option Error
refresh_request_validate r =
    require (not (str_eq r.refresh_token "")) "refresh_token: refresh token is required"

-- `(*UpdateUserRequest).Validate`
unfoldable pub update_user_request_validate : UpdateUserRequest → Option Error
unfolding validate_username
update_user_request_validate r =
    (if str_eq r.username "" then none else in_context "username" (validate_username r.username))
    then_check (if str_eq r.role ""
        then none
        else require (str_eq r.role "admin" || str_eq r.role "user")
            "role: must be either 'admin' or 'user'")
    then_check require (not (str_eq r.username "" && str_eq r.role ""))
        "at least one field (username or role) must be provided"
