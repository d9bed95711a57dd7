-- ===== src/Auth/Password.antt =====
-- internal/auth/password.go. `Bcrypt` is golang.org/x/crypto/bcrypt: a hash at a cost, drawn with
-- the salt of some number, and the comparison of a password with a hash.
use Prim.Native.String.{len}
use insider_banking_project.Base.{
  ℕ, ◌≡◌, ◌≢◌, Bool, true, false, not, ◌||◌, String, str_eq, Option, none, some, ltb, if◌then◌else◌,
}
use insider_banking_project.Domain.Error.{Error, plain, require, ◌then_check◌}
use insider_banking_project.Repository.World.{Result, ok, err, context_result}

pub record Bcrypt : Type 0 where
  pub generate_from_password : (salt : ℕ) → String → (cost : ℕ) → Result String
  pub compare_hash_and_password : String → String → Option Error

-- A hash that was made from a password compares well with that password, and is
-- not empty.
pub record IsBcrypt (b : Bcrypt) : Type 0 where
  pub compares :
      (salt cost : ℕ) (password hash : String)
      → b.generate_from_password salt password cost ≡ ok hash
      → b.compare_hash_and_password hash password ≡ none
  pub not_empty :
      (salt cost : ℕ) (password hash : String)
      → b.generate_from_password salt password cost ≡ ok hash
      → hash ≢ ""

abbrev pub default_cost : ℕ
default_cost = 12

abbrev pub is_nil : Option Error → Bool
is_nil none = true
is_nil (some e) = false

module _ (b : Bcrypt) where
  -- `HashPassword`
  unfoldable pub hash_password : ℕ → String → Result String
  hash_password salt password =
      if str_eq password ""
      then err (plain "password cannot be empty")
      else context_result "failed to hash password"
          (b.generate_from_password salt password default_cost)

  -- `ComparePassword`
  unfoldable pub compare_password : String → String → Bool
  compare_password hashed password =
      if str_eq hashed "" || str_eq password ""
      then false
      else is_nil (b.compare_hash_and_password hashed password)

-- `ValidatePasswordStrength`
unfoldable pub validate_password_strength : String → Option Error
validate_password_strength password =
    require (not (ltb (len password) 8)) "password must be at least 8 characters long"
    then_check require (not (ltb 72 (len password))) "password must be at most 72 characters long"
