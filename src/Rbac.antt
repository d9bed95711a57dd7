-- ===== src/Rbac.antt =====
-- internal/api/middleware/rbac.go: who may pass a guarded route. `uuid_string` is `UUID.String` of
-- the uuid package. A request is what the guards read of it: the claims that the authentication
-- put in its context, if any, and the id of the resource that it names.
use insider_banking_project.Base.{
  ℕ, Bool, true, false, not, ◌&&◌, ◌||◌, String, str_eq, Option, none, some, if◌then◌else◌,
}
use insider_banking_project.Domain.User.{role_user, role_admin}
mod Laws
mod Tests

pub record Claims : Type 0 where
  pub user_id : ℕ
  pub role : String

-- The next handler runs, or the client gets 403 with the message.
pub data Verdict : Type 0 where
  passed : Verdict
  forbidden : String → Verdict

abbrev pub role_in : Bool → Verdict
role_in true = passed
role_in false = forbidden "insufficient permissions"

-- `RequireRole`
unfoldable pub require_role : String → Option Claims → Verdict
require_role required none = forbidden "authentication required"
require_role required (some c) = role_in (str_eq c.role required)

-- `RequireAdmin`
unfoldable pub require_admin : Option Claims → Verdict
require_admin claims = require_role role_admin claims

-- `RequireUserRole`
unfoldable pub require_user_role : Option Claims → Verdict
require_user_role none = forbidden "authentication required"
require_user_role (some c) = role_in (str_eq c.role role_user || str_eq c.role role_admin)

-- `HasRole`
unfoldable pub has_role : Option Claims → String → Bool
has_role none role = false
has_role (some c) role = str_eq c.role role

-- `IsAdmin`
unfoldable pub is_admin : Option Claims → Bool
is_admin claims = has_role claims role_admin

-- `IsUser`
unfoldable pub is_user_or_admin : Option Claims → Bool
is_user_or_admin none = false
is_user_or_admin (some c) = str_eq c.role role_user || str_eq c.role role_admin

module _ (uuid_string : ℕ → String) where
  -- `RequireOwnershipOrAdmin`
  unfoldable pub require_ownership_or_admin : Option Claims → String → Verdict
  require_ownership_or_admin none requested = forbidden "authentication required"
  require_ownership_or_admin (some c) requested =
      if str_eq c.role role_admin
      then passed
      else if str_eq requested ""
      then forbidden "invalid resource identifier"
      else if str_eq (uuid_string c.user_id) requested
      then passed
      else forbidden "can only access your own resources"
