-- ===== src/Http/Authentication.antt =====
-- internal/api/middleware/auth.go: the claims that a request's Authorization header carries. A
-- missing header is empty.
use Prim.Native.Char.{code}
use insider_banking_project.Base.{ℕ, String, str_eq, Option, none, some, ◌==◌, if◌then◌else◌}
use insider_banking_project.Repository.World.{Result, ok, err}
use insider_banking_project.Auth.Tokens.{Claims, JwtManager, validate_access_token}

-- The next handler runs, with the claims in its context if there are any, or the client gets 401.
pub data Passage : Type 0 where
  passes : Option Claims → Passage
  unauthorized : String → Passage

abbrev pub bearer_prefix : String
bearer_prefix = "Bearer "

-- What is left of a text behind a prefix, if it has the prefix.
unfoldable pub trim_prefix : String → String → Option String
trim_prefix String.[] s = some s
trim_prefix (String.◌∷◌ c p) String.[] = none
trim_prefix (String.◌∷◌ c p) (String.◌∷◌ d s) =
    let rest = trim_prefix p s in if code c == code d then rest else none

module _ (m : JwtManager) (now : ℕ) where
  abbrev pub with_claims : Result Claims → Passage
  with_claims (ok c) = passes (some c)
  with_claims (err x) = unauthorized "invalid token"

  abbrev pub with_token : Option String → Passage
  with_token none = unauthorized "invalid authorization header format"
  with_token (some token) =
      if str_eq token ""
      then unauthorized "missing token"
      else with_claims (validate_access_token m now token)

  -- `AuthMiddleware`
  unfoldable pub auth_middleware : String → Passage
  unfolding trim_prefix
  auth_middleware header =
      if str_eq header ""
      then unauthorized "missing authorization header"
      else with_token (trim_prefix bearer_prefix header)

  abbrev pub claims_if_valid : Result Claims → Option Claims
  claims_if_valid (ok c) = some c
  claims_if_valid (err x) = none

  abbrev pub claims_of_token : Option String → Option Claims
  claims_of_token none = none
  claims_of_token (some token) =
      if str_eq token "" then none else claims_if_valid (validate_access_token m now token)

  -- `OptionalAuthMiddleware`
  unfoldable pub optional_auth_middleware : String → Passage
  unfolding trim_prefix
  optional_auth_middleware header =
      passes (if str_eq header "" then none else claims_of_token (trim_prefix bearer_prefix header))

-- `RequireUser`, on the claims that `GetUserFromContext` finds
unfoldable pub require_user : Option Claims → Passage
require_user none = unauthorized "authentication required"
require_user (some c) = passes (some c)
