-- ===== src/Auth/Tokens.antt =====
-- internal/auth/jwt.go. `Jwt` is golang-jwt: signing claims with a key, and parsing a token, which
-- asks a function for the key by the token's signing method and checks signature and times. Times
-- are nanoseconds.
use Prim.Native.Nat.{◌/◌}
use insider_banking_project.Base.{
  ℕ, ◌+◌, ◌*◌, ◌≤◌, ◌<◌, ◌≡◌, Bool, true, String, str_eq, List, [], ◌∷◌, ltb, if◌then◌else◌,
}
use insider_banking_project.Domain.Error.{plain}
use insider_banking_project.Repository.World.{Result, ok, err, context_result}

-- The signing methods, as far as the key function tells them apart.
pub data Method : Type 0 where
  hmac other_method : Method

pub record Claims : Type 0 where
  pub user_id : ℕ
  pub username : String
  pub email : String
  pub role : String
  pub type : String
  pub id : String
  pub issuer : String
  pub subject : String
  pub audience : List String
  pub expires_at : ℕ
  pub not_before : ℕ
  pub issued_at : ℕ

-- What parsing gives: the claims, and whether the token is valid.
pub record Token : Type 0 where
  pub claims : Claims
  pub valid : Bool

pub record Jwt : Type 0 where
  pub signed_string : String → Claims → Result String
  pub parse_with_claims : (Method → Result String) → (now : ℕ) → String → Result Token

-- What a signed token gives back under its key, before and after its time.
pub record IsJwt (j : Jwt) : Type 0 where
  pub parses :
      (key_of : Method → Result String) (key token : String) (c : Claims) (now : ℕ)
      → key_of hmac ≡ ok key
      → j.signed_string key c ≡ ok token
      → c.not_before ≤ now
      → now < c.expires_at
      → j.parse_with_claims key_of now token ≡ ok (record { claims = c; valid = true })
  pub expires :
      (key_of : Method → Result String) (key token : String) (c : Claims) (now : ℕ)
      → j.signed_string key c ≡ ok token
      → c.expires_at ≤ now
      → (x : _) × (j.parse_with_claims key_of now token ≡ err x)

abbrev pub access_token_type : String
access_token_type = "access"

abbrev pub refresh_token_type : String
refresh_token_type = "refresh"

abbrev pub second : ℕ
second = 1000000000

abbrev pub access_token_duration : ℕ
access_token_duration = 900 * second

abbrev pub refresh_token_duration : ℕ
refresh_token_duration = 604800 * second

-- `jwt.NewNumericDate` truncates to a second.
unfoldable pub numeric_date : ℕ → ℕ
numeric_date t = t / second * second

-- `JWTManager`, with the library it calls and `UUID.String`
pub record JwtManager : Type 0 where
  pub jwt : Jwt
  pub uuid_string : ℕ → String
  pub secret_key : String
  pub issuer : String

pub record TokenPair : Type 0 where
  pub access_token : String
  pub refresh_token : String
  pub expires_in : ℕ

-- What tokens say of their user.
pub record Holder : Type 0 where
  pub user_id : ℕ
  pub username : String
  pub email : String
  pub role : String

abbrev pub holder_of : Claims → Holder
holder_of c = record { user_id = c.user_id; username = c.username; email = c.email; role = c.role }

module _ (m : JwtManager) where
  -- `id` is the new UUID, `now` the time.
  unfoldable pub new_claims : (id now : ℕ) → Holder → String → ℕ → Claims
  new_claims id now h type duration = record {
    user_id = h.user_id;
    username = h.username;
    email = h.email;
    role = h.role;
    type = type;
    id = m.uuid_string id;
    issuer = m.issuer;
    subject = m.uuid_string h.user_id;
    audience = "go-banking-sim" ∷ [];
    expires_at = numeric_date (now + duration);
    not_before = numeric_date now;
    issued_at = numeric_date now;
  }

  -- `generateToken`
  unfoldable pub generate_token : (id now : ℕ) → Holder → String → ℕ → Result String
  unfolding new_claims
  generate_token id now h type duration =
      context_result "failed to sign token"
        (m.jwt.signed_string m.secret_key (new_claims id now h type duration))

  -- `GenerateAccessToken`
  unfoldable pub generate_access_token : (id now : ℕ) → Holder → Result String
  unfolding generate_token
  generate_access_token id now h = generate_token id now h access_token_type access_token_duration

  -- `GenerateRefreshToken`
  unfoldable pub generate_refresh_token : (id now : ℕ) → Holder → Result String
  unfolding generate_token
  generate_refresh_token id now h =
      generate_token id now h refresh_token_type refresh_token_duration

  -- The key function of `ValidateToken`
  abbrev pub key_function : Method → Result String
  key_function hmac = ok m.secret_key
  key_function other_method = err (plain "unexpected signing method")

  abbrev pub valid_claims : Token → Result Claims
  valid_claims t = if t.valid then ok t.claims else err (plain "token is invalid")

  -- `ValidateToken`
  unfoldable pub validate_token : (now : ℕ) → String → Result Claims
  validate_token now token =
      elim (context_result "failed to parse token"
        (m.jwt.parse_with_claims key_function now token)) [ ok t ↦ valid_claims t | err e ↦ err e ]

  abbrev pub of_type : String → String → Result Claims → Result Claims
  of_type type refusal (err e) = err e
  of_type type refusal (ok c) = if str_eq c.type type then ok c else err (plain refusal)

  -- `ValidateAccessToken`
  unfoldable pub validate_access_token : (now : ℕ) → String → Result Claims
  unfolding validate_token
  validate_access_token now token =
      of_type access_token_type "token is not an access token" (validate_token now token)

  -- `ValidateRefreshToken`
  unfoldable pub validate_refresh_token : (now : ℕ) → String → Result Claims
  unfolding validate_token
  validate_refresh_token now token =
      of_type refresh_token_type "token is not a refresh token" (validate_token now token)

  -- `RefreshAccessToken`: the token is checked at one time, and the new one made at another.
  unfoldable pub refresh_access_token : (checked id now : ℕ) → String → Result String
  unfolding validate_refresh_token generate_access_token
  refresh_access_token checked id now token =
      elim (context_result "invalid refresh token" (validate_refresh_token checked token)) [
        | ok c ↦ generate_access_token id now (holder_of c)
        | err e ↦ err e
      ]

  -- `GetUserFromToken`
  abbrev pub get_user_from_token : (now : ℕ) → String → Result Claims
  get_user_from_token now token = validate_token now token

  -- `IsTokenExpired`, whose key function takes every method.
  unfoldable pub is_token_expired : (now : ℕ) → String → Bool
  is_token_expired now token = elim (m.jwt.parse_with_claims (λ _. ok m.secret_key) now token) [
    | ok t ↦ ltb t.claims.expires_at now
    | err e ↦ true
  ]

  abbrev pub with_refresh : String → Result String → Result TokenPair
  with_refresh access (err e) = err e
  with_refresh access (ok refresh) =
      ok (record { access_token = access; refresh_token = refresh; expires_in = 900 })

  -- `GenerateTokenPair`, with the two new UUIDs and the two times it takes
  unfoldable pub generate_token_pair : (id now id' now' : ℕ) → Holder → Result TokenPair
  unfolding generate_access_token generate_refresh_token
  generate_token_pair id now id' now' h =
      elim (context_result "failed to generate access token" (generate_access_token id now h)) [
        | ok access ↦
            with_refresh access (
              context_result "failed to generate refresh token" (generate_refresh_token id' now' h))
        | err e ↦ err e
      ]
