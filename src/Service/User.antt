-- ===== src/Service/User.antt =====
-- internal/service/user.go: reading, updating and deleting one user, behind the cache.
pub mod Deletion
mod Tests
use insider_banking_project.Base.{
  ℕ, ⊤, Bool, String, str_eq, Option, none, some, List, [], ◌∷◌, if◌then◌else◌,
}
use insider_banking_project.Domain.Error.{Error, plain, wrap, codes, codes_eq, message}
use insider_banking_project.Domain.User.{User, UpdateUserRequest, UserResponse, user_to_response}
use insider_banking_project.Domain.UserRules.{user_validate}
use insider_banking_project.Domain.Event.{Detail, id_detail, text_detail, flag_detail}
use insider_banking_project.Repository.World.{
  Env, Result, ok, err, M, pure, fail, ignore, attempt, of_result, when, check, with_context, ◌>>=◌,
  ◌>>◌,
}
use insider_banking_project.Repository.Users.{get_user_by_id, update_user, delete_user}
use insider_banking_project.Repository.Cache.{cache_user, get_cached_user, invalidate_user_cache}
use insider_banking_project.Repository.Journal.{audit_log}

abbrev pub or_keep : String → String → String
or_keep new old = if str_eq new "" then old else new

abbrev pub or_keep_flag : Option Bool → Bool → Bool
or_keep_flag none old = old
or_keep_flag (some b) old = b

-- The user with the fields that the request gives.
abbrev pub apply_update : UpdateUserRequest → User → User
apply_update req u = record u {
  username = or_keep req.username u.username;
  role = or_keep req.role u.role;
  email = or_keep req.email u.email;
  is_active = or_keep_flag req.is_active u.is_active;
}

abbrev pub user_details : User → List (String × Detail)
user_details u =
    ("user_id", id_detail u.id)
    ∷ ("username", text_detail u.username)
    ∷ ("email", text_detail u.email)
    ∷ ("role", text_detail u.role)
    ∷ ("is_active", flag_detail u.is_active)
    ∷ []

-- The errors of a failed soft delete
abbrev pub delete_error : Error → Error
delete_error x =
    if codes_eq (message x) (codes "user not found or already inactive")
    then wrap "user not found" x
    else wrap "failed to delete user" x

abbrev pub or_delete_error : Result ⊤ → Result ⊤
or_delete_error (ok a) = ok a
or_delete_error (err x) = err (delete_error x)

-- `has_cache` says whether `SetCacheService` has been called.
module _ (e : Env) (has_cache : Bool) where
  -- The part of `GetByID` after a cache miss.
  unfoldable pub user_from_database : ℕ → M UserResponse
  user_from_database id = do
    u ← with_context "failed to get user" (get_user_by_id e id)
    when has_cache (ignore (cache_user e u))
    pure (user_to_response u)

  abbrev pub or_user_from_database : ℕ → Result UserResponse → M UserResponse
  or_user_from_database id (ok r) = pure r
  or_user_from_database id (err _) = user_from_database id

  -- `GetByID`
  unfoldable pub get_user : ℕ → M UserResponse
  get_user id w =
      if has_cache
      then (attempt (get_cached_user e id) >>= or_user_from_database id) w
      else user_from_database id w

  -- The end of `Update`: the cache, the audit log, and the response
  unfoldable pub update_finish : User → M UserResponse
  update_finish u = do
    when has_cache (ignore (invalidate_user_cache e u.id))
    ignore (audit_log e "user" u.id "update" (user_details u))
    when has_cache (ignore (cache_user e u))
    pure (user_to_response u)

  -- `Update`
  unfoldable pub update : ℕ → UpdateUserRequest → M UserResponse
  update id req = do
    u ← with_context "failed to get user" (get_user_by_id e id)
    check "validation failed" (user_validate (apply_update req u))
    u' ← with_context "failed to update user" (update_user e (apply_update req u))
    update_finish u'

  -- The end of `Delete`: the cache and the audit log
  unfoldable pub delete_finish : ℕ → User → M ⊤
  delete_finish id u = do
    when has_cache (ignore (invalidate_user_cache e id))
    ignore (audit_log e "user" u.id "delete" (user_details u))

  -- `Delete`
  unfoldable pub delete : ℕ → M ⊤
  delete id = do
    u ← with_context "failed to get user" (get_user_by_id e id)
    deleted ← attempt (delete_user e id)
    of_result (or_delete_error deleted)
    delete_finish id u

  -- `GetProfile` and `UpdateProfile`
  abbrev pub get_profile : ℕ → M UserResponse
  get_profile user_id = get_user user_id

  abbrev pub update_profile : ℕ → UpdateUserRequest → M UserResponse
  update_profile user_id req = update user_id req
