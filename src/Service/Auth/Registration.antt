-- ===== src/Service/Auth/Registration.antt =====
-- What a registration does to the tables.
use insider_banking_project.Base.{
  ℕ, ◌≡◌, refl, sym, ap, ◌∙◌, inl, inr, Bool, Bool-cases, true, String, none, Option-cases, arith,
  ◌+◌,
}
use insider_banking_project.Base.{◌≢◌, eq_iff}
use insider_banking_project.Base.Int.{pos}
use mathlib.Core.Path.{subst}
use insider_banking_project.Base.Dict.{lookup, insert}
use insider_banking_project.Domain.User.{User, CreateUserRequest, UserResponse, user_to_response}
use insider_banking_project.Domain.UserRules.{create_user_request_validate}
use insider_banking_project.Domain.Event.{EventData}
use insider_banking_project.Repository.Numeric.{to_numeric}
use insider_banking_project.Repository.World.{Env, World, Result-cases, ok}
use insider_banking_project.Repository.Users.{
  create_user, get_user_by_email, get_user_by_username, user_row_ok,
}
use insider_banking_project.Repository.Balances.{upsert}
use insider_banking_project.Repository.Frames.{upsert_ok}
use insider_banking_project.Repository.Quiet.{
  Quiet, Quiet-trans, audit_log-Quiet, append_event-Quiet,
}
use insider_banking_project.Service.Event.{
  new_event, publish_event, user_registered_event, amount_credited_event,
}
use insider_banking_project.Auth.Password.{Bcrypt, hash_password}
use insider_banking_project.Service.Auth.{
  lower, role_or_default, registered, register_finish, initial_balance, is_ok, publish_registration,
  register_write, register,
}

role_default : (role : String) → role ≡ "" → role_or_default role ≡ "user"
role_default role q = rw q refl

role_asked : (role : String) → role ≢ "" → role_or_default role ≡ role
role_asked role q = let empty = (eq_iff role "").0 in ground arith

module _ (e : Env) where
  pub create_user_ok :
      (u : User) (w : World) {u' : User}
      → (create_user e u w).0 ≡ ok u'
      → ((create_user e u w).1.db ≡ record (w.db) { users = insert u'.id u' w.db.users })
        × (lookup u'.id w.db.users ≡ none)
        × (user_row_ok w.db.users u' ≡ true)
        × (u' ≡ record u {
          id = u'.id;
          created_at = u'.created_at;
          updated_at = u'.updated_at;
          is_active = true;
        })
  unfolding create_user
  create_user_ok u w h = ground arith

  publish_event-Quiet :
      (aggregate_type : String) (aggregate_id : ℕ) (event_type : String) (data_of : EventData)
      (w : World)
      → Quiet w (publish_event e aggregate_type aggregate_id event_type data_of w).1
  unfolding publish_event new_event
  publish_event-Quiet aggregate_type aggregate_id event_type data_of w =
      grind (arith, append_event-Quiet)

  publish_registration-Quiet :
      (b : Bcrypt) (u : User) (w : World) → Quiet w (publish_registration b e u w).1
  unfolding publish_registration user_registered_event amount_credited_event
  publish_registration-Quiet b u w =
      Quiet-trans (publish_event-Quiet "user" u.id "UserRegistered" _ w)
        (publish_event-Quiet "balance" u.id "AmountCredited" _ _)

  find_by_email-Quiet : (email : String) (w : World) → Quiet w (get_user_by_email e email w).1
  unfolding get_user_by_email
  find_by_email-Quiet email w = ground arith

  find_by_username-Quiet : (name : String) (w : World) → Quiet w (get_user_by_username e name w).1
  unfolding get_user_by_username
  find_by_username-Quiet name w = ground arith

-- The tables after the registration of a user: one new active row, with the email in lower case, the
-- password's hash, and an empty balance in USD.
pub record IsRegistered (b : Bcrypt) (req : CreateUserRequest) (w w' : World) (r : UserResponse)
    : Type 0 where
  pub row : User
  pub since : ℕ
  pub salt : ℕ
  pub fresh : lookup row.id w.db.users ≡ none
  pub row_ok : user_row_ok w.db.users row ≡ true
  pub users : w'.db.users ≡ insert row.id row w.db.users
  pub balances :
      w'.db.balances
      ≡ insert row.id
          (record { user_id = row.id; amount = pos 0; currency = "USD"; last_updated_at = since })
          w.db.balances
  pub username : row.username ≡ req.username
  pub email : row.email ≡ lower req.email
  pub hashed : hash_password b salt req.password ≡ ok row.password_hash
  pub default_role : req.role ≡ "" → row.role ≡ "user"
  pub asked_role : req.role ≢ "" → row.role ≡ req.role
  pub active : row.is_active ≡ true
  pub response : r ≡ user_to_response row

IsRegistered-from :
    {b : Bcrypt} {req : CreateUserRequest} {v w w' : World} {r : UserResponse}
    → w.db.users ≡ v.db.users
    → w.db.balances ≡ v.db.balances
    → IsRegistered b req w w' r
    → IsRegistered b req v w' r
IsRegistered-from p q g = record {
  row = g.row;
  since = g.since;
  salt = g.salt;
  fresh = ap (λ z. lookup g.row.id z) (sym p) ∙ g.fresh;
  row_ok = ap (λ z. user_row_ok z g.row) (sym p) ∙ g.row_ok;
  users = g.users ∙ ap (λ z. insert g.row.id g.row z) p;
  balances =
      g.balances
      ∙ ap
          (λ z.
            insert g.row.id
              (record {
                user_id = g.row.id;
                amount = pos 0;
                currency = "USD";
                last_updated_at = g.since;
              })
              z)
          q;
  username = g.username;
  email = g.email;
  hashed = g.hashed;
  default_role = g.default_role;
  asked_role = g.asked_role;
  active = g.active;
  response = g.response;
}

module _ (b : Bcrypt) (e : Env) (has_events : Bool) (req : CreateUserRequest) where
  register_finish-Quiet :
      (u : User) (w : World) → Quiet w (register_finish b e has_events req u w).1
  unfolding register_finish publish_registration
  register_finish-Quiet u w = elim (Bool-cases has_events) [
    | inl on ↦
        rw on (Quiet-trans (publish_registration-Quiet e b u w) (audit_log-Quiet e _ _ _ _ _))
    | inr off ↦ rw off (audit_log-Quiet e _ _ _ _ _)
  ]

  register_finish_ok :
      (u : User) (w : World) → (register_finish b e has_events req u w).0 ≡ ok (user_to_response u)
  unfolding register_finish publish_registration
  register_finish_ok u w = elim (Bool-cases has_events) [
    | inl on ↦ rw on refl
    | inr off ↦ rw off refl
  ]

  register_write-reaches :
      (hash : String) (w : World) {r : UserResponse}
      → (register_write b e has_events req hash w).0 ≡ ok r
      → (u : User) × ((create_user e (registered req hash) w).0 ≡ ok u)
        × ((upsert e (initial_balance u.id) (create_user e (registered req hash) w).1).0 ≡ ok tt)
        × (register_write b e has_events req hash w
            ≡ register_finish b e has_events req u
                (upsert e (initial_balance u.id) (create_user e (registered req hash) w).1).1)
  unfolding register_write
  register_write-reaches hash w h = elim (Result-cases (create_user e (registered req hash) w).0) [
    | inr (x, p) ↦ absurd (ground arith)
    | inl (u, p) ↦
        elim (Result-cases
          (upsert e (initial_balance u.id) (create_user e (registered req hash) w).1).0) [
            | inr (x, q) ↦ absurd (ground arith)
            | inl (t, q) ↦ (u, p, ground arith, ground arith)
          ]
  ]

  register_write-IsRegistered :
      (salt : ℕ) (hash : String) (w : World) {r : UserResponse}
      → hash_password b salt req.password ≡ ok hash
      → (register_write b e has_events req hash w).0 ≡ ok r
      → IsRegistered b req w (register_write b e has_events req hash w).1 r
  unfolding to_numeric
  register_write-IsRegistered salt hash w {r = r} hashed h =
      let (u, p, q, reaches) = register_write-reaches hash w h in
      let w₁ : World = (create_user e (registered req hash) w).1 in
      let w₂ : World = (upsert e (initial_balance u.id) w₁).1 in
      let (made, fresh, fits, shape) = create_user_ok e (registered req hash) w p in
      let (paid, _) = upsert_ok e (initial_balance u.id) w₁ q in
      let quiet = register_finish-Quiet u w₂ in
      let gave : ok (user_to_response u) ≡ ok r =
        sym (register_finish_ok u w₂) ∙ ap (λ z. z.0) (sym reaches) ∙ h in
      record {
        row = u;
        since = e.now w₁.tick;
        salt = salt;
        fresh = fresh;
        row_ok = fits;
        users =
            ap (λ z. z.1.db.users) reaches
            ∙ quiet.same_users
            ∙ ap (λ z. z.users) paid
            ∙ ap (λ z. z.users) made;
        balances =
            ap (λ z. z.1.db.balances) reaches
            ∙ quiet.same_balances
            ∙ ap (λ z. z.balances) paid
            ∙ ap
                (λ z.
                  insert u.id
                    (record {
                      user_id = u.id;
                      amount = pos 0;
                      currency = "USD";
                      last_updated_at = e.now w₁.tick;
                    })
                    z.balances)
                made;
        username = ap (λ z. z.username) shape;
        email = ap (λ z. z.email) shape;
        hashed = hashed ∙ ap (λ z. ok z.password_hash) (sym shape);
        default_role = λ q. ap (λ z. z.role) shape ∙ role_default req.role q;
        asked_role = λ q. ap (λ z. z.role) shape ∙ role_asked req.role q;
        active = ap (λ z. z.is_active) shape;
        response = ground arith;
      }

  register-reaches :
      (w : World) {r : UserResponse}
      → (register b e has_events req w).0 ≡ ok r
      → (w' : World) × (salt : ℕ) × (hash : String) × Quiet w w'
        × (hash_password b salt req.password ≡ ok hash)
        × (register b e has_events req w ≡ register_write b e has_events req hash w')
  unfolding register
  register-reaches w h =
      let w₁ : World = (get_user_by_email e req.email w).1 in
      let w₂ : World = (get_user_by_username e req.username w₁).1 in
      let w₃ : World = record w₂ { tick = w₂.tick + 1 } in
      elim (Option-cases (create_user_request_validate req)) [
        | inr (x, p) ↦ absurd (ground arith)
        | inl valid ↦ elim (Bool-cases (is_ok (get_user_by_email e req.email w).0)) [
          | inl taken ↦ absurd (ground arith)
          | inr free ↦ elim (Bool-cases (is_ok (get_user_by_username e req.username w₁).0)) [
            | inl taken ↦ absurd (ground arith)
            | inr unnamed ↦
                elim (Result-cases (hash_password b (e.new_uuid w₂.tick) req.password)) [
                  | inr (x, p) ↦ absurd (ground arith)
                  | inl (hash, p) ↦ (
                    w₃,
                    e.new_uuid w₂.tick,
                    hash,
                    Quiet-trans (find_by_email-Quiet e req.email w)
                        (Quiet-trans (find_by_username-Quiet e req.username w₁) (ground arith)),
                    p,
                    ground arith,
                  )
                ]
          ]
        ]
      ]

  -- A registration that succeeds has created one active user, whose id and email and username no
  -- other user has, with the email in lower case, the hash of the password and the role asked for,
  -- `user` by default, and an empty balance in USD; no other user and no other balance has changed.
  pub register-IsRegistered :
      (w : World) {r : UserResponse}
      → (register b e has_events req w).0 ≡ ok r
      → IsRegistered b req w (register b e has_events req w).1 r
  register-IsRegistered w {r = r} h =
      let (w', salt, hash, quiet, hashed, reaches) = register-reaches w h in
      let wrote : IsRegistered b req w' (register_write b e has_events req hash w').1 r =
        register_write-IsRegistered salt hash w' hashed (ap (λ z. z.0) (sym reaches) ∙ h) in
      subst (λ z. IsRegistered b req w z.1 r) (sym reaches)
        (IsRegistered-from quiet.same_users quiet.same_balances wrote)
