-- ===== src/Repository/Users.antt =====
-- internal/repository/users.go, with the constraints of migrations/001: creating users, finding the
-- active ones, updating them, and deleting them softly.
use Prim.Native.String.{count}
use insider_banking_project.Base.{
  ℕ, ⊤, Bool, true, false, not, ◌&&◌, ◌||◌, ◌==◌, String, str_eq, Option, none, some, [], ◌∷◌, leb,
  is_none, if◌then◌else◌,
}
use insider_banking_project.Base.Dict.{Dict, lookup, insert}
use insider_banking_project.Domain.Error.{plain}
use insider_banking_project.Domain.User.{User, role_user, role_admin}
use insider_banking_project.Repository.World.{
  Env, ok, err, M, pure, fail, guard, with_context, ◌>>=◌, ◌>>◌, call, time_now, new_uuid,
}

-- No other row has the username or the email.
abbrev pub is_unique : User → Dict User → Bool
is_unique u [] = true
is_unique u ((k, v) ∷ vs) =
    let rest = is_unique u vs in
    (k == u.id || not (str_eq v.username u.username || str_eq v.email u.email)) && rest

-- What the columns hold: VARCHAR counts characters.
abbrev pub user_columns_ok : User → Bool
user_columns_ok u =
    leb (count u.username) 50
    && (leb (count u.email) 255
        && (leb (count u.password_hash) 255
            && (str_eq u.role role_user || str_eq u.role role_admin)))

unfoldable pub user_row_ok : Dict User → User → Bool
user_row_ok users u = is_unique u users && user_columns_ok u

abbrev pub put_user : ℕ → User → M ⊤
put_user id u w = (ok tt, record w { db = record (w.db) { users = insert id u w.db.users } })

-- The first active row that passes a test.
abbrev pub find_active : (User → Bool) → Dict User → Option User
find_active p [] = none
find_active p ((k, u) ∷ us) =
    let rest = find_active p us in if u.is_active && p u then some u else rest

abbrev pub active_only : Option User → Option User
active_only none = none
active_only (some u) = if u.is_active then some u else none

abbrev pub with_email : String → User → Bool
with_email email u = str_eq u.email email

abbrev pub with_username : String → User → Bool
with_username username u = str_eq u.username username

abbrev pub found_user : Option User → M User
found_user none = fail (plain "user not found")
found_user (some u) = pure u

-- The columns that `UPDATE` sets; a trigger sets `updated_at`.
abbrev pub updated_user : User → ℕ → User → User
updated_user u now row = record row {
  username = u.username;
  email = u.email;
  password_hash = u.password_hash;
  role = u.role;
  updated_at = now;
  is_active = u.is_active;
}

abbrev pub deactivated_user : ℕ → User → User
deactivated_user now row = record row { updated_at = now; is_active = false }

module _ (e : Env) where
  abbrev pub user_id_or_new : ℕ → M ℕ
  user_id_or_new id w = if id == 0 then new_uuid e w else (ok id, w)

  abbrev pub insert_user : User → M ⊤
  insert_user u w =
      if is_none (lookup u.id w.db.users) && user_row_ok w.db.users u
      then put_user u.id u w
      else (err (plain e.violation), w)

  -- `Create`, which also fills in the caller's record.
  unfoldable pub create_user : User → M User
  create_user u = do
    now ← time_now e
    id ← user_id_or_new u.id
    let u' = record u { id = id; created_at = now; updated_at = now; is_active = true }
    with_context "failed to create user" (call e (insert_user u'))
    pure u'

  -- `GetByID`
  unfoldable pub get_user_by_id : ℕ → M User
  get_user_by_id id = do
    row ←
        with_context "failed to get user by ID"
          (call e λ w. (ok (active_only (lookup id w.db.users)), w))
    found_user row

  -- `GetByEmail`
  unfoldable pub get_user_by_email : String → M User
  get_user_by_email email = do
    row ←
        with_context "failed to get user by email"
          (call e λ w. (ok (find_active (with_email email) w.db.users), w))
    found_user row

  -- `GetByUsername`
  unfoldable pub get_user_by_username : String → M User
  get_user_by_username username = do
    row ←
        with_context "failed to get user by username"
          (call e λ w. (ok (find_active (with_username username) w.db.users), w))
    found_user row

  -- The `UPDATE` of `Update`: was a row affected?
  abbrev pub update_user_row : User → ℕ → Option User → M Bool
  update_user_row u now none w = (ok false, w)
  update_user_row u now (some row) w =
      if user_row_ok w.db.users (updated_user u now row)
      then (ok true, (put_user u.id (updated_user u now row) w).1)
      else (err (plain e.violation), w)

  -- `Update`, which also sets the time in the caller's record.
  unfoldable pub update_user : User → M User
  update_user u = do
    now ← time_now e
    affected ←
        with_context "failed to update user"
          (call e λ w. update_user_row u (e.now w.tick) (lookup u.id w.db.users) w)
    guard affected "user not found"
    pure (record u { updated_at = now })

  -- The `UPDATE` of `Delete`
  abbrev pub delete_user_row : (id now : ℕ) → Option User → M Bool
  delete_user_row id now none w = (ok false, w)
  delete_user_row id now (some row) w = (ok true, (put_user id (deactivated_user now row) w).1)

  -- `Delete`
  unfoldable pub delete_user : ℕ → M ⊤
  delete_user id = do
    affected ←
        with_context "failed to soft delete user"
          (call e λ w. delete_user_row id (e.now w.tick) (active_only (lookup id w.db.users)) w)
    guard affected "user not found or already inactive"
