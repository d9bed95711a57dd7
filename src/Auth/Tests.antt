-- ===== src/Auth/Tests.antt =====
-- A token of a user, and its life.
use insider_banking_project.Base.{◌≡◌, refl, String, arith}
use insider_banking_project.Domain.Error.{plain}
use insider_banking_project.Repository.World.{ok, err}
use insider_banking_project.Auth.Tokens.{
  Claims, Holder, holder_of, access_token_type, access_token_duration, generate_token, new_claims,
  generate_access_token, validate_access_token, validate_refresh_token,
}
use insider_banking_project.Auth.TokenLaws.{access_token_roundtrip}
use insider_banking_project.Auth.Samples.{manager, jwt-IsJwt, spell_claims}

abbrev ann : Holder
ann = record { user_id = 5; username = "ann"; email = "ann@bank.io"; role = "user" }

token : String
token = spell_claims (new_claims manager 8 3 ann access_token_type access_token_duration)

token_made : generate_access_token manager 8 3 ann ≡ ok token
unfolding generate_access_token generate_token token
token_made = refl

access_token_roundtrip_example :
    ((c : Claims) × (validate_access_token manager 70 token ≡ ok c) × (holder_of c ≡ ann))
    × (validate_refresh_token manager 70 token ≡ err (plain "token is not a refresh token"))
access_token_roundtrip_example =
    access_token_roundtrip manager 8 3 ann token 70 jwt-IsJwt token_made (omega arith) (omega arith)
