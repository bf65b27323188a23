-- ===== src/Access/Roles.antt =====
-- Who passes the guards of access.go.
use crucible_iap.Base.{
  String, ◌≡◌, ◌≢◌, ◌↔◌, inl, inr, Bool, Option-cases, true, Option, none, some, arith, eq_iff,
}
use crucible_iap.Db.{Run, Stack, Db}
use crucible_iap.Db.Query.{find_run, find_stack}
use crucible_iap.Db.Env.{Caller}
use crucible_iap.Access.{
  resolve, org_role, member_role, is_restricted, stack_role_for_run, may_write, may_act_on_run,
}

-- The effective role is "" exactly for an unlisted user of a restricted stack who is no
-- organisation admin, as long as no member row holds an empty role.
pub resolve-no_access_iff :
    (org : String) (sm : Option String) (restricted : Bool)
    → sm ≢ some ""
    → (resolve org sm restricted ≡ "") ↔ ((org ≢ "admin") × (restricted ≡ true) × (sm ≡ none))
unfolding resolve
resolve-no_access_iff org none restricted h = ground (
  arith,
  eq_iff org "admin",
  eq_iff org "member",
  eq_iff "admin" "",
  eq_iff "approver" "",
  eq_iff "viewer" "",
)
resolve-no_access_iff org (some r) restricted h = ground (
  arith,
  eq_iff org "admin",
  eq_iff org "member",
  eq_iff "admin" "",
  eq_iff "approver" "",
  eq_iff "viewer" "",
)

module _ {C : Type 0} where
  -- What a caller without a service account needs: the run exists, its stack is in the caller's
  -- organisation, the caller is a member there, and the effective role is one that may write.
  pub may_act-scoped :
      (c : Caller) (id : String) (db : Db C)
      → c.sa_role ≡ ""
      → may_act_on_run c id db ≡ true
      → (r : Run C) × (s : Stack C) × (role : String) × (find_run id db ≡ some r)
        × (find_stack r.stack_id db ≡ some s)
        × (s.org_id ≡ c.org_id)
        × (org_role s.org_id c.user_id db ≡ some role)
        × (may_write (some (resolve role (member_role s.id c.user_id db) (is_restricted s.id db)))
            ≡ true)
  unfolding may_act_on_run stack_role_for_run may_write
  may_act-scoped c id db h k = elim (Option-cases (find_run id db)) [
    | inl e ↦ absurd (ground (arith, eq_iff c.sa_role ""))
    | inr (r, e) ↦ elim (Option-cases (find_stack r.stack_id db)) [
      | inl f ↦ absurd (ground (arith, eq_iff c.sa_role ""))
      | inr (s, f) ↦ elim (Option-cases (org_role s.org_id c.user_id db)) [
        | inl g ↦ absurd (ground (arith, eq_iff c.sa_role "", eq_iff s.org_id c.org_id))
        | inr (role, g) ↦ (
          r,
          s,
          role,
          e,
          f,
          ground (arith, eq_iff c.sa_role "", eq_iff s.org_id c.org_id),
          g,
          ground (arith, eq_iff c.sa_role "", eq_iff s.org_id c.org_id),
        )
      ]
    ]
  ]

  -- A service account passes the guard for every run, of any organisation.
  pub service_account-unscoped :
      (c : Caller) (id : String) (db : Db C) → c.sa_role ≢ "" → may_act_on_run c id db ≡ true
  unfolding may_act_on_run
  service_account-unscoped c id db h = ground (arith, eq_iff c.sa_role "")
