-- ===== src/Service/User/Deletion.antt =====
-- What the soft deletion of a user leaves of the user.
use insider_banking_project.Base.{
  ℕ, ◌≡◌, refl, sym, ap, ◌∙◌, inl, inr, Bool, true, false, String, some, Option-cases, arith, ◌+◌,
}
use insider_banking_project.Base.Dict.{lookup, insert, lookup-insert_self}
use insider_banking_project.Domain.Error.{Error, wrap}
use insider_banking_project.Domain.User.{User}
use insider_banking_project.Repository.World.{Env, World, Result-cases, ok, err}
use insider_banking_project.Repository.Users.{get_user_by_id, delete_user, deactivated_user}
use insider_banking_project.Repository.Cache.{invalidate_user_cache}
use insider_banking_project.Repository.Quiet.{Quiet, audit_log-Quiet}
use insider_banking_project.Service.User.{delete, delete_finish}
use insider_banking_project.Auth.Tokens.{JwtManager, Claims, validate_access_token}
use insider_banking_project.Service.Auth.{validate}

module _ (e : Env) where
  get_user_by_id-Quiet : (id : ℕ) (w : World) → Quiet w (get_user_by_id e id w).1
  unfolding get_user_by_id
  get_user_by_id-Quiet id w = ground arith

  -- An inactive row is not found.
  get_user_by_id_inactive :
      (id : ℕ) (w : World) (u : User)
      → lookup id w.db.users ≡ some u
      → u.is_active ≡ false
      → (x : Error) × ((get_user_by_id e id w).0 ≡ err x)
  unfolding get_user_by_id
  get_user_by_id_inactive id w u row gone = elim (Result-cases (get_user_by_id e id w).0) [
    | inl (a, p) ↦ absurd (ground arith)
    | inr (x, p) ↦ (x, p)
  ]

  delete_user_ok :
      (id : ℕ) (w : World)
      → (delete_user e id w).0 ≡ ok tt
      → (row : User) × (lookup id w.db.users ≡ some row)
        × (row.is_active ≡ true)
        × ((delete_user e id w).1.db ≡ record (w.db) {
          users = insert id (deactivated_user (e.now (w.tick + 1)) row) w.db.users;
        })
  unfolding delete_user
  delete_user_ok id w h = elim (Option-cases (lookup id w.db.users)) [
    | inl missing ↦ absurd (ground arith)
    | inr (row, p) ↦ (row, p, ground arith, ground arith)
  ]

-- The tables after the deletion of a user: the row is kept, inactive, and all else is as it was.
pub record IsDeleted (id : ℕ) (w w' : World) : Type 0 where
  pub row : User
  pub since : ℕ
  pub was : lookup id w.db.users ≡ some row
  pub was_active : row.is_active ≡ true
  pub users : w'.db.users ≡ insert id (deactivated_user since row) w.db.users
  pub balances : w'.db.balances ≡ w.db.balances

module _ (e : Env) (has_cache : Bool) where
  delete_finish-Quiet :
      (id : ℕ) (u : User) (w : World) → Quiet w (delete_finish e has_cache id u w).1
  unfolding delete_finish invalidate_user_cache
  delete_finish-Quiet id u w = grind (arith, audit_log-Quiet)

  delete-reaches :
      (id : ℕ) (w : World)
      → (delete e has_cache id w).0 ≡ ok tt
      → (u : User) × ((delete_user e id (get_user_by_id e id w).1).0 ≡ ok tt)
        × (delete e has_cache id w
            ≡ delete_finish e has_cache id u (delete_user e id (get_user_by_id e id w).1).1)
  unfolding delete
  delete-reaches id w h = elim (Result-cases (get_user_by_id e id w).0) [
    | inr (x, p) ↦ absurd (ground arith)
    | inl (u, p) ↦ elim (Result-cases (delete_user e id (get_user_by_id e id w).1).0) [
      | inr (x, q) ↦ absurd (ground arith)
      | inl (t, q) ↦ (u, ground arith, ground arith)
    ]
  ]

  delete-IsDeleted :
      (id : ℕ) (w : World)
      → (delete e has_cache id w).0 ≡ ok tt
      → IsDeleted id w (delete e has_cache id w).1
  delete-IsDeleted id w h =
      let (u, done, reaches) = delete-reaches id w h in
      let w₁ : World = (get_user_by_id e id w).1 in
      let w₂ : World = (delete_user e id w₁).1 in
      let (row, was, active, made) = delete_user_ok e id w₁ done in
      let before = get_user_by_id-Quiet e id w in
      let after = delete_finish-Quiet id u w₂ in
      let gone : User = deactivated_user (e.now (w₁.tick + 1)) row in
      record {
        row = row;
        since = e.now (w₁.tick + 1);
        was = ap (λ z. lookup id z) (sym before.same_users) ∙ was;
        was_active = active;
        users =
            ap (λ z. z.1.db.users) reaches
            ∙ after.same_users
            ∙ ap (λ z. z.users) made
            ∙ ap (λ z. insert id gone z) before.same_users;
        balances =
            ap (λ z. z.1.db.balances) reaches
            ∙ after.same_balances
            ∙ ap (λ z. z.balances) made
            ∙ before.same_balances;
      }

  validate_inactive :
      (m : JwtManager) (token : String) (c : Claims) (w : World) (u : User)
      → validate_access_token m (e.now w.tick) token ≡ ok c
      → lookup c.user_id w.db.users ≡ some u
      → u.is_active ≡ false
      → (x : Error) × ((validate e m token w).0 ≡ err x)
  unfolding validate
  validate_inactive m token c w u valid row gone =
      let (x, p) =
        get_user_by_id_inactive e c.user_id (record w { tick = w.tick + 1 }) u row gone in
      (wrap "user not found" x, ground arith)

  -- A user who is deleted stays in the table, inactive, and keeps the balance, like all other users
  -- and balances. Whenever the row is still so, the repository's query by the id does not find the
  -- user, and the authentication service's `ValidateToken` refuses a token of the user that is valid
  -- as an access token.
  pub delete_locks_out :
      (id : ℕ) (w : World)
      → (delete e has_cache id w).0 ≡ ok tt
      → IsDeleted id w (delete e has_cache id w).1
        × ((v : World)
            → lookup id v.db.users ≡ lookup id (delete e has_cache id w).1.db.users
            → ((x : Error) × ((get_user_by_id e id v).0 ≡ err x))
              × ((m : JwtManager) (token : String) (c : Claims)
                  → validate_access_token m (e.now v.tick) token ≡ ok c
                  → c.user_id ≡ id
                  → (x : Error) × ((validate e m token v).0 ≡ err x)))
  delete_locks_out id w h =
      let g = delete-IsDeleted id w h in
      let w' : World = (delete e has_cache id w).1 in
      let gone : User = deactivated_user g.since g.row in
      let row : lookup id w'.db.users ≡ some gone =
        ap (λ z. lookup id z) g.users ∙ lookup-insert_self id gone w.db.users in
      (
        g,
        λ v still. (
          get_user_by_id_inactive e id v gone (still ∙ row) refl,
          λ m token c valid same.
              validate_inactive m token c v gone valid
                (ap (λ z. lookup z v.db.users) same ∙ still ∙ row) refl,
        ),
      )
