-- ===== src/Middleware/Roles.antt =====
-- What passing the guard of a route means for the stacks of the organisation.
use crucible_iap.Base.{
  String, ◌≡◌, refl, sym, inl, inr, true, ◌||◌, Option, none, some, str_eq, eq_iff, arith, subst,
  Bool-cases,
}
use crucible_iap.Db.{Stack, Db}
use crucible_iap.Db.Env.{Caller, ok}
use crucible_iap.Db.Query.{find_stack}
use crucible_iap.Access.{org_role, resolve, role_on, stack_role, may_write}
use crucible_iap.Middleware.{
  Role, admin, rank, role_from_string, check_role, caller_role, require_role,
}

role_from_string-admin : (s : String) → rank (role_from_string s) ≡ 2 → str_eq s "admin" ≡ true
unfolding role_from_string
role_from_string-admin s h =
    ground (arith, Bool-cases (str_eq s "admin"), Bool-cases (str_eq s "member"))

check_role-admin :
    (o : Option String)
    → check_role admin o ≡ ok tt
    → (role : String) × (o ≡ some role) × (str_eq role "admin" ≡ true)
unfolding role_from_string
check_role-admin none h = absurd (ground arith)
check_role-admin (some role) h = (
  role,
  refl,
  ground (arith, Bool-cases (str_eq role "admin"), Bool-cases (str_eq role "member")),
)

module _ {C : Type 0} where
  caller_role-user :
      (k : Caller) (db : Db C)
      → str_eq k.sa_role "" ≡ true
      → caller_role k db ≡ org_role k.org_id k.user_id db
  caller_role-user k db u = rw u refl

  require_role-checks :
      (minimum : Role) (k : Caller) (db : Db C)
      → require_role minimum k db ≡ ok tt
      → check_role minimum (caller_role k db) ≡ ok tt
  unfolding require_role
  require_role-checks minimum k db h =
      elim (Bool-cases (str_eq k.user_id "" || str_eq k.org_id "")) [
        | inl e ↦ absurd (ground (arith, e))
        | inr e ↦ ground (arith, e)
      ]

  -- A user who passes the guard of the admins has the role of an admin on every stack of the
  -- organisation, restricted to its members or not, and may change it.
  pub require_role-stack_role :
      (k : Caller) (db : Db C) (id : String) (s : Stack C)
      → require_role admin k db ≡ ok tt
      → str_eq k.sa_role "" ≡ true
      → find_stack id db ≡ some s
      → str_eq s.org_id k.org_id ≡ true
      → (stack_role id k.user_id k.org_id db ≡ some "admin")
        × (may_write (stack_role id k.user_id k.org_id db) ≡ true)
  unfolding stack_role resolve may_write
  require_role-stack_role k db id s h u f o =
      let (role, r, e) = check_role-admin (org_role k.org_id k.user_id db) (
        subst (λ x. check_role admin x ≡ ok tt) (caller_role-user k db u)
          (require_role-checks admin k db h)) in
      let own : org_role s.org_id k.user_id db ≡ some role =
        subst (λ x. org_role x k.user_id db ≡ some role) (sym ((eq_iff s.org_id k.org_id).0 o)) r in
      let found : stack_role id k.user_id k.org_id db ≡ some "admin" =
        rw (f, stack_role) (rw (o, role_on) (rw own (rw (e, resolve) refl))) in
      (found, rw found refl)
