-- ===== src/Auth/TokenLaws.antt =====
-- What tokens are good for: how long, for whom, and for which of the two uses.
use insider_banking_project.Base.{ℕ, ◌+◌, ◌≤◌, ◌<◌, ◌≡◌, refl, ◌⊎◌, inl, inr, true, String, arith}
use insider_banking_project.Domain.Error.{Error, plain, wrap}
use insider_banking_project.Repository.World.{ok, err}
use insider_banking_project.Auth.Tokens.{
  Claims, IsJwt, JwtManager, Holder, holder_of, access_token_type, refresh_token_type, second,
  access_token_duration, refresh_token_duration, numeric_date, new_claims, generate_token,
  generate_access_token, generate_refresh_token, key_function, validate_token,
  validate_access_token, validate_refresh_token, refresh_access_token,
}

numeric_date_bounds : (t : ℕ) → (numeric_date t ≤ t) × (t < numeric_date t + second)
unfolding numeric_date
numeric_date_bounds t = (omega arith, omega arith)

module _ (m : JwtManager) (id now : ℕ) (h : Holder) where
  generate_token_ok :
      (type token : String) (duration : ℕ)
      → generate_token m id now h type duration ≡ ok token
      → m.jwt.signed_string m.secret_key (new_claims m id now h type duration) ≡ ok token
  unfolding generate_token
  generate_token_ok type token duration e = ground arith

  validate_token_ok :
      (type token : String) (duration later : ℕ)
      → IsJwt m.jwt
      → generate_token m id now h type duration ≡ ok token
      → now ≤ later
      → later < numeric_date (now + duration)
      → validate_token m later token ≡ ok (new_claims m id now h type duration)
  unfolding validate_token new_claims
  validate_token_ok type token duration later lawful e from until =
      let parsed : m.jwt.parse_with_claims (key_function m) later token
          ≡ ok (record { claims = new_claims m id now h type duration; valid = true }) =
        lawful.parses (key_function m) m.secret_key token (new_claims m id now h type duration)
          later refl (generate_token_ok type token duration e)
          (omega (arith, (numeric_date_bounds now).0)) until in
      rw (validate_token, parsed) refl

  validate_token_expired :
      (type token : String) (duration later : ℕ)
      → IsJwt m.jwt
      → generate_token m id now h type duration ≡ ok token
      → now + duration ≤ later
      → (x : Error) × (validate_token m later token ≡ err x)
  unfolding validate_token new_claims
  validate_token_expired type token duration later lawful e past =
      let (x, failed) =
        lawful.expires (key_function m) m.secret_key token (new_claims m id now h type duration)
          later (generate_token_ok type token duration e)
          (omega (arith, (numeric_date_bounds (now + duration)).0)) in
      (wrap "failed to parse token" x, rw (validate_token, failed) refl)

  -- If the library keeps to its contract, an access token is accepted as an access token, with the
  -- claims of its user, from its creation until the second in which its fifteen minutes end, and
  -- it is never accepted as a refresh token then.
  pub access_token_roundtrip :
      (token : String) (later : ℕ)
      → IsJwt m.jwt
      → generate_access_token m id now h ≡ ok token
      → now ≤ later
      → later + second ≤ now + access_token_duration
      → ((c : Claims) × (validate_access_token m later token ≡ ok c) × (holder_of c ≡ h))
        × (validate_refresh_token m later token ≡ err (plain "token is not a refresh token"))
  unfolding generate_access_token validate_access_token validate_refresh_token new_claims
  access_token_roundtrip token later lawful e from until =
      let valid : validate_token m later token
          ≡ ok (new_claims m id now h access_token_type access_token_duration) =
        validate_token_ok access_token_type token access_token_duration later lawful e from
          (omega (arith, (numeric_date_bounds (now + access_token_duration)).1)) in
      (
        (
          new_claims m id now h access_token_type access_token_duration,
          rw (validate_access_token, valid) refl,
          refl,
        ),
        rw (validate_refresh_token, valid) refl,
      )

  -- If the library keeps to its contract, an access token that is fifteen minutes old and a refresh
  -- token that is seven days old are refused for both uses.
  pub token_expires :
      (token : String) (later : ℕ)
      → IsJwt m.jwt
      → ((generate_access_token m id now h ≡ ok token) × (now + access_token_duration ≤ later))
        ⊎ ((generate_refresh_token m id now h ≡ ok token) × (now + refresh_token_duration ≤ later))
      → ((x : Error) × (validate_access_token m later token ≡ err x))
        × ((x : Error) × (validate_refresh_token m later token ≡ err x))
  unfolding generate_access_token generate_refresh_token validate_access_token
      validate_refresh_token
  token_expires token later lawful (inl (e, past)) =
      let (x, failed) =
        validate_token_expired access_token_type token access_token_duration later lawful e past in
      ((x, rw (validate_access_token, failed) refl), (x, rw (validate_refresh_token, failed) refl))
  token_expires token later lawful (inr (e, past)) =
      let (x, failed) =
        validate_token_expired refresh_token_type token refresh_token_duration later lawful e
          past in
      ((x, rw (validate_access_token, failed) refl), (x, rw (validate_refresh_token, failed) refl))

  -- If the library keeps to its contract, a refresh token that is younger than seven days, less a
  -- second, is exchanged for the access token that the same user would be given by a new login then,
  -- if that one can be signed; as an access token the refresh token itself is refused.
  pub refresh_token_roundtrip :
      (token access : String) (id' later now' : ℕ)
      → IsJwt m.jwt
      → generate_refresh_token m id now h ≡ ok token
      → now ≤ later
      → later + second ≤ now + refresh_token_duration
      → generate_access_token m id' now' h ≡ ok access
      → (refresh_access_token m later id' now' token ≡ ok access)
        × (validate_access_token m later token ≡ err (plain "token is not an access token"))
  unfolding generate_refresh_token validate_access_token validate_refresh_token refresh_access_token
      new_claims
  refresh_token_roundtrip token access id' later now' lawful e from until signs =
      let valid : validate_token m later token
          ≡ ok (new_claims m id now h refresh_token_type refresh_token_duration) =
        validate_token_ok refresh_token_type token refresh_token_duration later lawful e from
          (omega (arith, (numeric_date_bounds (now + refresh_token_duration)).1)) in
      (
        rw (refresh_access_token, validate_refresh_token, valid) signs,
        rw (validate_access_token, valid) refl,
      )
