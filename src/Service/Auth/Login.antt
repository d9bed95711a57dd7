-- ===== src/Service/Auth/Login.antt =====
-- Who can log in: a registered user with the right password, and nobody who has been deleted.
use insider_banking_project.Base.{
  ℕ, ◌≡◌, refl, sym, ap, ◌∙◌, Bool, true, String, eq_iff, none, some, arith, ◌+◌, ◌≤◌, [], ◌∷◌,
}
use insider_banking_project.Base.Dict.{Dict, lookup, insert}
use insider_banking_project.Domain.User.{User, CreateUserRequest, UserResponse, user_to_response}
use insider_banking_project.Repository.World.{Env, World, ok}
use insider_banking_project.Repository.Users.{
  find_active, with_email, is_unique, user_row_ok, get_user_by_email,
}
use insider_banking_project.Auth.Password.{
  Bcrypt, IsBcrypt, hash_password, compare_password, default_cost,
}
use insider_banking_project.Auth.Tokens.{
  JwtManager, Claims, TokenPair, IsJwt, Holder, generate_token_pair, generate_access_token,
  generate_refresh_token, generate_token, new_claims, access_token_type, refresh_token_type,
  access_token_duration, refresh_token_duration, second, validate_access_token,
}
use insider_banking_project.Auth.TokenLaws.{access_token_roundtrip}
use insider_banking_project.Service.Auth.{lower, holder, register, login, LoginResponse}
use insider_banking_project.Service.Auth.Registration.{register-IsRegistered}

-- A new row with an email of its own is the one that its email finds.
find-insert :
    (u : User) (us : Dict User)
    → lookup u.id us ≡ none
    → is_unique u us ≡ true
    → u.is_active ≡ true
    → find_active (with_email u.email) (insert u.id u us) ≡ some u
unfolding lookup insert
find-insert u [] fresh unique active = ground (arith, (eq_iff u.email u.email).1 refl)
find-insert u ((k, v) ∷ vs) fresh unique active = ground (arith, find-insert u vs)

hash_compares :
    (b : Bcrypt) (salt : ℕ) (password hash : String)
    → IsBcrypt b
    → hash_password b salt password ≡ ok hash
    → compare_password b hash password ≡ true
unfolding hash_password compare_password
hash_compares b salt password hash lawful h = ground (
  arith,
  lawful.compares salt default_cost password hash,
  lawful.not_empty salt default_cost password hash,
  (eq_iff hash "").0,
)

-- The library signs any claims.
abbrev pub CanSign : JwtManager → Type 0
CanSign m = (c : Claims) → (token : String) × (m.jwt.signed_string m.secret_key c ≡ ok token)

pair_ok :
    (m : JwtManager) (id now id' now' : ℕ) (h : Holder)
    → CanSign m
    → (p : TokenPair) × (generate_token_pair m id now id' now' h ≡ ok p)
      × (generate_access_token m id now h ≡ ok p.access_token)
unfolding generate_token_pair generate_access_token generate_refresh_token generate_token
pair_ok m id now id' now' h signs =
    let (access, p) = signs (new_claims m id now h access_token_type access_token_duration) in
    let (refresh, q) = signs (new_claims m id' now' h refresh_token_type refresh_token_duration) in
    (
      record { access_token = access; refresh_token = refresh; expires_in = 900 },
      ground arith,
      ground arith,
    )

module _ (b : Bcrypt) (e : Env) (m : JwtManager) where
  -- A login by the email of an active user and a password that its hash takes.
  login_ok :
      (email password : String) (w : World) (u : User)
      → CanSign m
      → e.fault w.tick ≡ none
      → find_active (with_email (lower email)) w.db.users ≡ some u
      → compare_password b u.password_hash password ≡ true
      → (l : LoginResponse) × (id : ℕ) × ((login b e m email password w).0 ≡ ok l)
        × (l.user ≡ user_to_response u)
        × (generate_access_token m id (e.now (w.tick + 1)) (holder u) ≡ ok l.access_token)
  unfolding login get_user_by_email
  login_ok email password w u signs works found matches =
      let t = w.tick + 1 in
      let (p, paired, access) =
        pair_ok m (e.new_uuid (t + 1)) (e.now t) (e.new_uuid (t + 1 + 1 + 1)) (e.now (t + 1 + 1))
          (holder u) signs in
      (
        record {
          user = user_to_response u;
          access_token = p.access_token;
          refresh_token = p.refresh_token;
          expires_in = p.expires_in;
        },
        e.new_uuid (t + 1),
        ground arith,
        refl,
        access,
      )

  -- If bcrypt and the token library keep to their contracts, tokens can be signed and the login's
  -- query does not fail: a user who has just registered can log in with the same password and any
  -- spelling of the email in capitals and small letters, gets the registered user back, and gets an
  -- access token that is accepted, with the user's claims, until fifteen minutes, less a second,
  -- have passed since its creation.
  pub register_then_login :
      (has_events : Bool) (req : CreateUserRequest) (w : World) (r : UserResponse) (email : String)
      (later : ℕ)
      → IsBcrypt b
      → IsJwt m.jwt
      → CanSign m
      → (register b e has_events req w).0 ≡ ok r
      → lower email ≡ lower req.email
      → e.fault (register b e has_events req w).1.tick ≡ none
      → e.now ((register b e has_events req w).1.tick + 1) ≤ later
      → later + second ≤ e.now ((register b e has_events req w).1.tick + 1) + access_token_duration
      → (l : LoginResponse) × ((login b e m email req.password (register b e has_events req w).1).0
          ≡ ok l)
        × (l.user ≡ r)
        × ((c : Claims) × (validate_access_token m later l.access_token ≡ ok c)
            × (c.user_id ≡ r.id)
            × (c.role ≡ r.role))
  unfolding user_row_ok
  register_then_login has_events req w r email later crypt lawful signs registers same works from
        until =
      let g = register-IsRegistered b e has_events req w registers in
      let w' : World = (register b e has_events req w).1 in
      let u : User = g.row in
      let found : find_active (with_email (lower email)) w'.db.users ≡ some u =
        ap (λ z. find_active (with_email z) w'.db.users) (same ∙ sym g.email)
        ∙ ap (λ z. find_active (with_email u.email) z) g.users
        ∙ find-insert u w.db.users g.fresh (ground (arith, g.row_ok)) g.active in
      let (l, id, done, user, access) =
        login_ok email req.password w' u signs works found
          (hash_compares b g.salt req.password u.password_hash crypt g.hashed) in
      let ((c, valid, held), _) =
        access_token_roundtrip m id (e.now (w'.tick + 1)) (holder u) l.access_token later lawful
          access from until in
      (
        l,
        done,
        user ∙ sym g.response,
        (
          c,
          valid,
          ap (λ z. z.user_id) held ∙ ap (λ z. z.id) (sym g.response),
          ap (λ z. z.role) held ∙ ap (λ z. z.role) (sym g.response),
        ),
      )
