-- ===== src/Access.antt =====
-- internal/access/access.go: the effective role of a user on a stack.
pub mod Roles
pub mod Listing
use crucible_iap.Base.{
  String, Bool, true, false, not, ◌&&◌, ◌||◌, Option, none, some, str_eq, any, find?, if◌then◌else◌,
}
use crucible_iap.Db.{OrgMember, StackMember, Run, Stack, Db}
use crucible_iap.Db.Query.{find_run, find_stack}
use crucible_iap.Db.Env.{Caller}

-- `resolve`: an unlisted user of a restricted stack has the role "", no access.
unfoldable pub resolve : String → Option String → Bool → String
resolve org_role sm_role has_members =
    if str_eq org_role "admin"
    then "admin"
    else if not has_members
    then (if str_eq org_role "member" then "approver" else "viewer")
    else (elim sm_role [ some role ↦ role | none ↦ "" ])

module _ {C : Type 0} where
  abbrev pub org_role : String → String → Db C → Option String
  org_role org user db =
      elim (find? (λ m. str_eq m.org_id org && str_eq m.user_id user) db.org_members) [
        | none ↦ none
        | some m ↦ some m.role
      ]

  abbrev pub member_role : String → String → Db C → Option String
  member_role stack user db =
      elim (find? (λ m. str_eq m.stack_id stack && str_eq m.user_id user) db.stack_members) [
        | none ↦ none
        | some m ↦ some m.role
      ]

  -- EXISTS (SELECT 1 FROM stack_members WHERE stack_id = …)
  abbrev pub is_restricted : String → Db C → Bool
  is_restricted stack db = any (λ m. str_eq m.stack_id stack) db.stack_members

  -- the row that the two queries join for a stack of the caller's organisation
  abbrev pub role_on : Stack C → String → String → Db C → Option String
  role_on s user org db =
      if str_eq s.org_id org
      then (elim (org_role s.org_id user db) [
        | none ↦ none
        | some role ↦ some (resolve role (member_role s.id user db) (is_restricted s.id db))
      ])
      else none

  -- `StackRole`; `none` is the error of a query without a row
  unfoldable pub stack_role : String → String → String → Db C → Option String
  stack_role stack user org db = elim (find_stack stack db) [
    | none ↦ none
    | some s ↦ role_on s user org db
  ]

  -- `StackRoleForRun`
  unfoldable pub stack_role_for_run : String → String → String → Db C → Option String
  stack_role_for_run run user org db = elim (find_run run db) [
    | none ↦ none
    | some r ↦ elim (find_stack r.stack_id db) [ none ↦ none | some s ↦ role_on s user org db ]
  ]

-- `err != nil || role == "" || role == "viewer"` refuses
unfoldable pub may_write : Option String → Bool
may_write none = false
may_write (some role) = not (str_eq role "" || str_eq role "viewer")

module _ {C : Type 0} where
  -- The guard of the handlers that act on a run: a service account passes unseen.
  unfoldable pub may_act_on_run : Caller → String → Db C → Bool
  may_act_on_run c run db =
      if not (str_eq c.sa_role "")
      then true
      else may_write (stack_role_for_run run c.user_id c.org_id db)

  -- `requireStackWriteAccess`
  unfoldable pub may_write_stack : Caller → String → Db C → Bool
  may_write_stack c stack db =
      if not (str_eq c.sa_role "") then true else may_write (stack_role stack c.user_id c.org_id db)
