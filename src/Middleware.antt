-- ===== src/Middleware.antt =====
-- internal/middleware/rbac.go: what a request must be, for the handler behind it to run. The texts of a
-- context that are missing are empty; `instance_admin` is the column is_instance_admin of a user, none
-- where the row is missing.
pub mod Roles
use crucible_iap.Base.{
  ℕ, String, Bool, true, false, not, ◌&&◌, ◌||◌, Option, none, some, str_eq, ltb, if◌then◌else◌,
}
use crucible_iap.Db.{Db}
use crucible_iap.Db.Env.{Caller, Result, ok, http_error}
use crucible_iap.Access.{org_role}

pub data Role : Type 0 where
  viewer member admin : Role

abbrev pub rank : Role → ℕ
rank viewer = 0
rank member = 1
rank admin = 2

-- `roleFromString`
unfoldable pub role_from_string : String → Role
role_from_string s =
    if str_eq s "admin" then admin else if str_eq s "member" then member else viewer

abbrev pub check_role : Role → Option String → Result (Unit {0})
check_role minimum none = http_error 403
check_role minimum (some role) =
    if ltb (rank (role_from_string role)) (rank minimum) then http_error 403 else ok tt

module _ {C : Type 0} where
  -- the role of a service account, or of the member
  abbrev pub caller_role : Caller → Db C → Option String
  caller_role k db =
      if not (str_eq k.sa_role "") then some k.sa_role else org_role k.org_id k.user_id db

  -- `RequireRole`
  unfoldable pub require_role : Role → Caller → Db C → Result (Unit {0})
  require_role minimum k db =
      if str_eq k.user_id "" || str_eq k.org_id ""
      then http_error 401
      else check_role minimum (caller_role k db)

-- `RequireInstanceAdmin`
unfoldable pub require_instance_admin : (String → Option Bool) → Caller → Result (Unit {0})
require_instance_admin instance_admin k =
    if str_eq k.user_id "" then http_error 401 else (elim (instance_admin k.user_id) [
      | none ↦ http_error 403
      | some flag ↦ if flag then ok tt else http_error 403
    ])
