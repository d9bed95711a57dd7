-- ===== src/Service/Auth/Tests.antt =====
-- A registration on the small bank, and the login after it.
use insider_banking_project.Base.{◌≡◌, refl, true, false, arith}
use insider_banking_project.Base.Dict.{lookup, insert}
use insider_banking_project.Domain.Patterns.{matches_username, matches_email}
use insider_banking_project.Domain.User.{User, CreateUserRequest, user_to_response}
use insider_banking_project.Domain.UserRules.{
  create_user_request_validate, validate_username, validate_email, validate_password, validate_role,
}
use insider_banking_project.Domain.Balance.{is_valid_currency, one_of, supported_currencies}
use insider_banking_project.Repository.Numeric.{to_numeric}
use insider_banking_project.Repository.World.{World, ok}
use insider_banking_project.Repository.Constraints.{balance_row_ok}
use insider_banking_project.Repository.Users.{
  create_user, user_row_ok, get_user_by_email, get_user_by_username,
}
use insider_banking_project.Repository.Balances.{upsert}
use insider_banking_project.Repository.Journal.{audit_log}
use insider_banking_project.Auth.Password.{hash_password}
use insider_banking_project.Auth.Tokens.{Claims, validate_access_token}
use insider_banking_project.Auth.Samples.{manager, jwt-IsJwt, bcrypt, bcrypt-IsBcrypt, spell_claims}
use insider_banking_project.Service.Tests.{calm, world}
use insider_banking_project.Service.Auth.{
  lower, login, LoginResponse, register, register_write, register_finish,
}
use insider_banking_project.Service.Auth.Registration.{IsRegistered, register-IsRegistered}
use insider_banking_project.Service.Auth.Login.{CanSign, register_then_login}

abbrev request : CreateUserRequest
request = record { username = "ann_lee"; email = "Ann@bank.io"; password = "password1"; role = "" }

abbrev row : User
row = record {
  id = 104;
  username = "ann_lee";
  email = "ann@bank.io";
  password_hash = "hpassword1";
  role = "user";
  created_at = 3;
  updated_at = 3;
  is_active = true;
}

registers : (register bcrypt calm false request world).0 ≡ ok (user_to_response row)
unfolding register register_write register_finish create_user user_row_ok get_user_by_email
    get_user_by_username upsert to_numeric hash_password create_user_request_validate
    validate_username validate_email validate_password validate_role matches_username matches_email
    lookup insert balance_row_ok is_valid_currency one_of supported_currencies
registers = refl

-- The world after the registration
abbrev after : World
after = (register bcrypt calm false request world).1

after_tick : after.tick ≡ 11
unfolding register register_write register_finish create_user user_row_ok get_user_by_email
    get_user_by_username upsert to_numeric hash_password create_user_request_validate
    validate_username validate_email validate_password validate_role matches_username matches_email
    lookup insert balance_row_ok is_valid_currency one_of supported_currencies audit_log
after_tick = refl

register-IsRegistered_example : IsRegistered bcrypt request world after (user_to_response row)
register-IsRegistered_example = register-IsRegistered bcrypt calm false request world registers

manager_signs : CanSign manager
manager_signs c = (spell_claims c, refl)

lower_email : lower "ANN@bank.IO" ≡ lower request.email
lower_email = refl

register_then_login_example :
    (l : LoginResponse) × ((login bcrypt calm manager "ANN@bank.IO" "password1" after).0 ≡ ok l)
    × (l.user ≡ user_to_response row)
    × ((c : Claims) × (validate_access_token manager 50 l.access_token ≡ ok c)
        × (c.user_id ≡ 104)
        × (c.role ≡ "user"))
register_then_login_example =
    register_then_login bcrypt calm manager false request world (user_to_response row) "ANN@bank.IO"
      50 bcrypt-IsBcrypt jwt-IsJwt manager_signs registers lower_email refl
      (omega (arith, after_tick)) (omega (arith, after_tick))
