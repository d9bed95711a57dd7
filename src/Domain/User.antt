-- ===== src/Domain/User.antt =====
-- internal/domain/user.go: users and the requests about them.
use insider_banking_project.Base.{ℕ, Bool, String, Option}

pub record User : Type 0 where
  pub id : ℕ
  pub username : String
  pub email : String
  pub password_hash : String
  pub role : String
  pub created_at : ℕ
  pub updated_at : ℕ
  pub is_active : Bool

abbrev pub role_user : String
role_user = "user"

abbrev pub role_admin : String
role_admin = "admin"

pub record CreateUserRequest : Type 0 where
  pub username : String
  pub email : String
  pub password : String
  pub role : String

-- A text that is left out is empty.
pub record UpdateUserRequest : Type 0 where
  pub email : String
  pub username : String
  pub role : String
  pub is_active : Option Bool

pub record LoginRequest : Type 0 where
  pub email : String
  pub password : String

pub record RefreshRequest : Type 0 where
  pub refresh_token : String

pub record UserResponse : Type 0 where
  pub id : ℕ
  pub username : String
  pub email : String
  pub role : String
  pub created_at : ℕ
  pub updated_at : ℕ
  pub is_active : Bool

-- `(*User).ToResponse`
abbrev pub user_to_response : User → UserResponse
user_to_response u = record {
  id = u.id;
  username = u.username;
  email = u.email;
  role = u.role;
  created_at = u.created_at;
  updated_at = u.updated_at;
  is_active = u.is_active;
}
