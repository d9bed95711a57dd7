-- ===== src/Http/Administration.antt =====
-- Who may read, change and delete users.
use insider_banking_project.Base.{
  ℕ, ⊤, ◌≡◌, inl, inr, refl, sym, ap, ◌∙◌, Bool, Bool-cases, String, str_eq, eq_iff, Option, some,
  Option-cases, arith,
}
use insider_banking_project.Domain.Error.{Error, plain}
use insider_banking_project.Domain.User.{UpdateUserRequest}
use insider_banking_project.Repository.World.{Env, World, Result, ok, err}
use insider_banking_project.Repository.Users.{get_user_by_id}
use insider_banking_project.Rbac.{require_admin, require_role}
use insider_banking_project.Service.User.{get_user, update, delete}
use insider_banking_project.Service.User.Deletion.{IsDeleted, delete_locks_out}
use insider_banking_project.Auth.Tokens.{Claims, JwtManager}
use insider_banking_project.Http.Bearer.{Brings, auth_middleware_sound}
use insider_banking_project.Http.Reply.{Reply, Handler, success, failure, respond_with}
use insider_banking_project.Http.Users.{
  respond_user, respond_update, respond_delete, with_valid, for_admin, handle_get_user,
  handle_update_user, handle_delete_user,
}

-- A request behind the administrators' check: it has a valid token of an administrator and an id in
-- its path, and the handler for that id gives the outcome; or it is refused with the world as it was.
pub data AdminOnly (m : JwtManager) (parse_uuid : String → Option ℕ) (now : ℕ)
    (header path_id : String) {A : Type 0} (k : ℕ → Handler World A) (w : World)
    (out : Reply A × World) : Type 0 where
  granted :
      (c : Claims) (id : ℕ)
      → Brings m now header c
      → c.role ≡ "admin"
      → parse_uuid path_id ≡ some id
      → out ≡ k id w
      → AdminOnly m parse_uuid now header path_id k w out
  rejected :
      (status : ℕ) (x : Error)
      → out ≡ (failure status x, w)
      → AdminOnly m parse_uuid now header path_id k w out

module _ (m : JwtManager) (parse_uuid : String → Option ℕ) (now : ℕ) (header path_id : String)
    {A : Type 0} (k : ℕ → Handler World A) (w : World) where
  for_admin-AdminOnly :
      AdminOnly m parse_uuid now header path_id k w (for_admin m parse_uuid now header path_id k w)
  unfolding for_admin require_admin require_role
  for_admin-AdminOnly = elim (auth_middleware_sound m now header) [
    | inr (message, refused, _, _) ↦ rejected 401 (plain message) (rw refused refl)
    | inl (c, passed, token, _) ↦ elim (Bool-cases (str_eq c.role "admin")) [
      | inr other ↦ rejected 403 (plain "insufficient permissions") (rw (passed, other) refl)
      | inl admin ↦ elim (Bool-cases (str_eq path_id "")) [
        | inl empty ↦ rejected 400 (plain "User ID is required") (rw (passed, admin, empty) refl)
        | inr given ↦ elim (Option-cases (parse_uuid path_id)) [
          | inl wrong ↦
              rejected 400 (plain "Invalid user ID format") (rw (passed, admin, given, wrong) refl)
          | inr (id, parsed) ↦
              granted c id token ((eq_iff c.role "admin").0 admin) parsed
                (rw (passed, admin, given, parsed) refl)
        ]
      ]
    ]
  ]

respond_delete_ok : (r : Result ⊤) → respond_delete r ≡ success 200 tt → r ≡ ok tt
respond_delete_ok (ok tt) h = refl
respond_delete_ok (err x) h = absurd (ground arith)

module _ (e : Env) (has_cache : Bool) (m : JwtManager) (parse_uuid : String → Option ℕ)
    (now : ℕ) where
  -- The handlers that read and update a user do so only for a valid access token of an
  -- administrator, and for the id in the path; every other request is refused and changes nothing.
  pub users_need_admin :
      (header path_id : String) (body : Option UpdateUserRequest) (w : World)
      → AdminOnly m parse_uuid now header path_id
          (λ id. respond_with respond_user (get_user e has_cache id))
          w
          (handle_get_user e has_cache m parse_uuid now header path_id w)
        × AdminOnly m parse_uuid now header path_id
            (λ id. with_valid body λ r. respond_with respond_update (update e has_cache id r))
            w
            (handle_update_user e has_cache m parse_uuid now header path_id body w)
  unfolding handle_get_user handle_update_user
  users_need_admin header path_id body w = (
    for_admin-AdminOnly m parse_uuid now header path_id
        (λ id. respond_with respond_user (get_user e has_cache id)) w,
    for_admin-AdminOnly m parse_uuid now header path_id
        (λ id. with_valid body λ r. respond_with respond_update (update e has_cache id r)) w,
  )

  -- A deletion that is answered with 200 was asked for with a valid access token of an
  -- administrator; the user whose id the path has stays in the table, inactive, like all other users
  -- and all balances, and the repository's query no longer finds the user by the id.
  pub handle_delete_user_deletes :
      (header path_id : String) (w : World)
      → (handle_delete_user e has_cache m parse_uuid now header path_id w).0 ≡ success 200 tt
      → (c : Claims) × (id : ℕ) × Brings m now header c
        × (c.role ≡ "admin")
        × (parse_uuid path_id ≡ some id)
        × IsDeleted id w (handle_delete_user e has_cache m parse_uuid now header path_id w).1
        × ((x : Error) × ((get_user_by_id e id
                (handle_delete_user e has_cache m parse_uuid now header path_id w).1).0
              ≡ err x))
  unfolding handle_delete_user
  handle_delete_user_deletes header path_id w h =
      elim (for_admin-AdminOnly m parse_uuid now header path_id
        (λ id. respond_with respond_delete (delete e has_cache id)) w) [
          | rejected status x p ↦ absurd (ground arith)
          | granted c id token admin parsed p ↦
              let done =
                respond_delete_ok (delete e has_cache id w).0 (ap (λ z. z.0) (sym p) ∙ h) in
              let (gone, later) = delete_locks_out e has_cache id w done in
              let (not_found, refused) = later (delete e has_cache id w).1 refl in
              let same = ap (λ z. z.1) p in
              (c, id, token, admin, parsed, rw same gone, rw same not_found)
        ]
