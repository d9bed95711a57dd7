-- ===== src/Http/Reply.antt =====
-- internal/api/v1: what the handlers share. A handler takes the state that its service works on,
-- and replies with a status and a value, or a status and an error, in place of their JSON.
-- `uuid.Parse` is a parameter.
use Prim.Native.Char.{Char, code}
use insider_banking_project.Base.{
  ℕ, zero, suc, String, Option, none, some, List, [], ◌∷◌, ◌==◌, if◌then◌else◌,
}
use insider_banking_project.Domain.Error.{Error, plain}
use insider_banking_project.Repository.World.{Result, ok, err}
use insider_banking_project.Auth.Tokens.{Claims, JwtManager}
use insider_banking_project.Http.Authentication.{Passage, passes, unauthorized}

-- A status, and what is sent with it.
pub data Reply (A : Type 0) : Type 0 where
  success : ℕ → A → Reply A
  failure : ℕ → Error → Reply A

abbrev pub Handler : Type 0 → Type 0 → Type 0
Handler S A = S → Reply A × S

-- A new row, or the text of the error.
abbrev pub respond_created : {A : Type 0} → Result A → Reply A
respond_created (ok a) = success 201 a
respond_created (err x) = failure 400 x

module _ {S A : Type 0} where
  abbrev pub refused : ℕ → String → Handler S A
  refused status s p = (failure status (plain s), p)

  -- The reply to what a service gives.
  abbrev pub respond_with : (Result A → Reply A) → (S → Result A × S) → Handler S A
  respond_with f m p = (f (m p).0, (m p).1)

  abbrev pub behind : Passage → (Option Claims → Handler S A) → Handler S A
  behind (passes c) k = k c
  behind (unauthorized s) k = refused 401 s

module _ (m : JwtManager) (parse_uuid : String → Option ℕ) {S A : Type 0} where
  abbrev pub as_parsed_user : Option ℕ → (ℕ → Handler S A) → Handler S A
  as_parsed_user none k = refused 500 "Invalid user ID"
  as_parsed_user (some user_id) k = k user_id

  -- `GetCurrentUserID` gives the text of the id in the claims, and the handler parses it.
  abbrev pub as_user : Option Claims → (ℕ → Handler S A) → Handler S A
  as_user none k = refused 401 "User not authenticated"
  as_user (some c) k = as_parsed_user (parse_uuid (m.uuid_string c.user_id)) k

abbrev lengthen : Char → List String → List String
lengthen c [] = String.◌∷◌ c "" ∷ []
lengthen c (s ∷ ss) = String.◌∷◌ c s ∷ ss

-- `strings.Split(path, "/")`
unfoldable pub split_path : String → List String
split_path String.[] = "" ∷ []
split_path (String.◌∷◌ c s) =
    let rest = split_path s in if code c == b'/' then "" ∷ rest else lengthen c rest

-- The part with a number, or nothing if there are fewer.
abbrev pub part : ℕ → List String → Option String
part n [] = none
part zero (s ∷ ss) = some s
part (suc n) (s ∷ ss) = part n ss
