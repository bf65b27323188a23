-- ===== src/Access/Listing.antt =====
-- `StackRoleSQL` and `AccessFilterSQL` of access.go: the role and the visibility of a stack as the
-- list queries compute them, from the LEFT JOINed membership rows.
use crucible_iap.Base.{
  String, ◌≡◌, ◌↔◌, Bool, true, false, not, ◌||◌, Option, none, some, arith, str_eq, eq_iff,
  is_some, if◌then◌else◌,
}
use crucible_iap.Access.{resolve}

-- COALESCE(om.role, 'admin')
abbrev or_admin : Option String → String
or_admin none = "admin"
or_admin (some role) = role

abbrev is_member : Option String → Bool
is_member none = false
is_member (some role) = str_eq role "member"

unfoldable pub listed_role : Option String → Option String → Bool → String
listed_role om sm restricted =
    if str_eq (or_admin om) "admin"
    then "admin"
    else if not restricted
    then (if is_member om then "approver" else "viewer")
    else (elim sm [ some role ↦ role | none ↦ "viewer" ])

unfoldable pub is_listed : Option String → Option String → Bool → Bool
is_listed om sm restricted = str_eq (or_admin om) "admin" || not restricted || is_some sm

-- For a member of the organisation the role that the list query computes is the one of `resolve`
-- exactly on the stacks that the access filter shows; on a stack that the filter hides, the query says
-- "viewer" and `resolve` says "".
pub listed_role-eq-resolve_iff :
    (org : String) (sm : Option String) (restricted : Bool)
    → ((listed_role (some org) sm restricted ≡ resolve org sm restricted)
        ↔ (is_listed (some org) sm restricted ≡ true))
      × (listed_role (some org) sm restricted
          ≡ (if is_listed (some org) sm restricted then resolve org sm restricted else "viewer"))
      × (resolve org sm restricted ≡ (
          if is_listed (some org) sm restricted then listed_role (some org) sm restricted else ""))
unfolding listed_role is_listed resolve
listed_role-eq-resolve_iff org sm restricted =
    ground (arith, eq_iff org "admin", eq_iff "viewer" "")
