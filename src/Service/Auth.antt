-- ===== src/Service/Auth.antt =====
-- internal/service/auth.go: registration, login, and the life of tokens. `bcrypt` and the token
-- manager's library are parameters.
pub mod Registration
pub mod Login
mod Tests
use Prim.Native.Char.{Char, code}
use Prim.Native.String.{char_at}
use insider_banking_project.Base.{
  ℕ, ⊤, ◌-◌, Bool, true, false, not, ◌&&◌, String, str_eq, Option, none, some, List, [], ◌∷◌, leb,
  if◌then◌else◌,
}
use insider_banking_project.Base.Int.{pos}
use insider_banking_project.Domain.Error.{Error, plain}
use insider_banking_project.Domain.Balance.{Balance}
use insider_banking_project.Domain.User.{
  User, CreateUserRequest, UserResponse, user_to_response, role_user,
}
use insider_banking_project.Domain.UserRules.{create_user_request_validate}
use insider_banking_project.Domain.Event.{id_detail, text_detail}
use insider_banking_project.Repository.World.{
  Env, Result, ok, err, M, pure, fail, ignore, attempt, of_result, when, check, guard, with_context,
  new_uuid, time_now, ◌>>=◌, ◌>>◌,
}
use insider_banking_project.Repository.Users.{
  create_user, get_user_by_id, get_user_by_email, get_user_by_username,
}
use insider_banking_project.Repository.Balances.{upsert}
use insider_banking_project.Repository.Journal.{audit_log}
use insider_banking_project.Service.Event.{user_registered_event, amount_credited_event}
use insider_banking_project.Auth.Password.{Bcrypt, hash_password, compare_password}
use insider_banking_project.Auth.Tokens.{
  JwtManager, Holder, Claims, TokenPair, generate_token_pair, refresh_access_token,
  validate_access_token, validate_refresh_token,
}

-- `strings.ToLower`, on the ASCII letters: an email that has been validated has no other.
abbrev pub lower_char : Char → Char
lower_char c =
    if leb b'A' (code c) && leb (code c) b'Z'
    then char_at "abcdefghijklmnopqrstuvwxyz" (code c - b'A')
    else c

abbrev pub lower : String → String
lower String.[] = String.[]
lower (String.◌∷◌ c s) = String.◌∷◌ (lower_char c) (lower s)

abbrev pub role_or_default : String → String
role_or_default role = if str_eq role "" then role_user else role

-- `err == nil`
abbrev pub is_ok : {A : Type 0} → Result A → Bool
is_ok (ok a) = true
is_ok (err e) = false

-- The row that a registration asks for.
abbrev pub registered : CreateUserRequest → String → User
registered req hash = record {
  id = 0;
  username = req.username;
  email = lower req.email;
  password_hash = hash;
  role = role_or_default req.role;
  created_at = 0;
  updated_at = 0;
  is_active = true;
}

abbrev pub initial_balance : ℕ → Balance
initial_balance id = record { user_id = id; amount = pos 0; currency = "USD"; last_updated_at = 0 }

abbrev pub holder : User → Holder
holder u = record { user_id = u.id; username = u.username; email = u.email; role = u.role }

pub record LoginResponse : Type 0 where
  pub user : UserResponse
  pub access_token : String
  pub refresh_token : String
  pub expires_in : ℕ

pub record TokenResponse : Type 0 where
  pub access_token : String
  pub expires_in : ℕ

-- An error of the database is taken for an unknown email.
abbrev pub or_invalid : Result User → M User
or_invalid (ok u) = pure u
or_invalid (err x) = fail (plain "invalid email or password")

module _ (bcrypt : Bcrypt) (e : Env) where
  -- `auth.HashPassword`: the salt is drawn at random, as a UUID is.
  abbrev pub hash_new_password : String → M String
  hash_new_password password = do salt ← new_uuid e; of_result (hash_password bcrypt salt password)

  -- The events of a registration
  unfoldable pub publish_registration : User → M ⊤
  publish_registration u = do
    ignore (user_registered_event e u)
    ignore (amount_credited_event e u.id (pos 0) "USD" 0 "initial_balance")

  -- The events, the audit entry and the response of a registration.
  unfoldable pub register_finish : Bool → CreateUserRequest → User → M UserResponse
  register_finish has_events req u = do
    when has_events (publish_registration u)
    ignore (
        audit_log e "user" u.id "register" (
          ("user_id", id_detail u.id)
          ∷ ("username", text_detail req.username)
          ∷ ("email", text_detail (lower req.email))
          ∷ ("role", text_detail (role_or_default req.role))
          ∷ []))
    pure (user_to_response u)

  -- From the creation of the row to the end of the registration.
  unfoldable pub register_write : Bool → CreateUserRequest → String → M UserResponse
  register_write has_events req hash = do
    u ← with_context "failed to create user" (create_user e (registered req hash))
    with_context "failed to create initial balance" (upsert e (initial_balance u.id))
    register_finish has_events req u

  -- `Register`
  unfoldable pub register : Bool → CreateUserRequest → M UserResponse
  register has_events req = do
    check "validation failed" (create_user_request_validate req)
    same_email ← attempt (get_user_by_email e req.email)
    guard (not (is_ok same_email)) "email already registered"
    same_name ← attempt (get_user_by_username e req.username)
    guard (not (is_ok same_name)) "username already taken"
    hash ← with_context "failed to hash password" (hash_new_password req.password)
    register_write has_events req hash

module _ (bcrypt : Bcrypt) (e : Env) (m : JwtManager) where
  -- `GenerateTokenPair` at the times that the clock shows
  abbrev pub new_token_pair : User → M TokenPair
  new_token_pair u = do
    now ← time_now e
    id ← new_uuid e
    now' ← time_now e
    id' ← new_uuid e
    of_result (generate_token_pair m id now id' now' (holder u))

  -- `Login`
  unfoldable pub login : String → String → M LoginResponse
  login email password = do
    found ← attempt (get_user_by_email e (lower email))
    u ← or_invalid found
    guard (compare_password bcrypt u.password_hash password) "invalid email or password"
    tokens ← with_context "failed to generate tokens" (new_token_pair u)
    ignore (
        audit_log e "user" u.id "login"
          (("user_id", id_detail u.id) ∷ ("email", text_detail u.email) ∷ []))
    pure (record {
      user = user_to_response u;
      access_token = tokens.access_token;
      refresh_token = tokens.refresh_token;
      expires_in = tokens.expires_in;
    })

module _ (e : Env) (m : JwtManager) where
  -- `RefreshToken`
  unfoldable pub refresh : String → M TokenResponse
  refresh token = do
    checked ← time_now e
    now ← time_now e
    id ← new_uuid e
    access ←
        with_context "invalid refresh token"
          (of_result (refresh_access_token m checked id now token))
    pure (record { access_token = access; expires_in = 900 })

  -- `ValidateToken`
  unfoldable pub validate : String → M UserResponse
  validate token = do
    now ← time_now e
    claims ← with_context "invalid token" (of_result (validate_access_token m now token))
    u ← with_context "user not found" (get_user_by_id e claims.user_id)
    pure (user_to_response u)

  abbrev pub log_logout : Result Claims → M ⊤
  log_logout (err x) = pure tt
  log_logout (ok c) =
      ignore (audit_log e "user" c.user_id "logout" (("user_id", id_detail c.user_id) ∷ []))

  -- `Logout`
  unfoldable pub logout : String → M ⊤
  logout token = do
    now ← time_now e
    c ← with_context "invalid refresh token" (of_result (validate_refresh_token m now token))
    later ← time_now e
    log_logout (validate_refresh_token m later token)
