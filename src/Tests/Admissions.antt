-- ===== src/Tests/Admissions.antt =====
-- New runs, deletions and roles at concrete inputs.
use crucible_iap.Base.{
  if◌then◌else◌, ℕ, ◌≤◌, ◌↔◌, String, ◌≡◌, refl, true, none, some, List, [], ◌∷◌,
}
use crucible_iap.Db.{unconfirmed, finished, tracked, null, Run, Stack, Db}
use crucible_iap.Db.Query.{find_run, find_stack}
use crucible_iap.Access.{
  resolve, org_role, stack_role, stack_role_for_run, may_write, may_write_stack, may_act_on_run,
  member_role, is_restricted,
}
use crucible_iap.Access.Roles.{may_act-scoped}
use crucible_iap.Access.Listing.{listed_role, is_listed, listed_role-eq-resolve_iff}
use crucible_iap.Quotas.{count_active_runs, check_concurrent_quota}
use crucible_iap.Runs.Create.{override_all, parse_var_overrides, requested_type, create, create_on}
use crucible_iap.Runs.Create.Admission.{create-within_quota}
use crucible_iap.Tests.Fixtures.{env, ann, run, stack, db_of}

abbrev ended : Db ℕ
ended =
    db_of (run "r1" finished tracked none ∷ run "r2" unconfirmed tracked none ∷ [])
      (stack null none)

create-within_quota_example :
    count_active_runs "acme" (create env ann "net" "tracked" [] ended).1 ≤ 2
unfolding create create_on may_write_stack stack_role resolve may_write parse_var_overrides
    override_all requested_type check_concurrent_quota count_active_runs
create-within_quota_example =
    create-within_quota env ann "net" "tracked" [] ended 2 {new = "run-new"} refl refl

abbrev given : List (String × String)
given = ("REGION", "eu") ∷ []

abbrev accepted : List String
accepted = "REGION=eu" ∷ []

abbrev member : String
member = "member"

may_act-scoped_example :
    (r : Run ℕ) × (s : Stack ℕ) × (role : String) × (find_run "r1" ended ≡ some r)
    × (find_stack r.stack_id ended ≡ some s)
    × (s.org_id ≡ "acme")
    × (org_role s.org_id "ann" ended ≡ some role)
    × (may_write (some (resolve role (member_role s.id "ann" ended) (is_restricted s.id ended)))
        ≡ true)
unfolding may_act_on_run stack_role_for_run may_write resolve
may_act-scoped_example = may_act-scoped ann "r1" ended refl refl

listed_role-eq-resolve_iff_example :
    ((listed_role (some "member") none true ≡ resolve "member" none true)
      ↔ (is_listed (some "member") none true ≡ true))
    × (listed_role (some "member") none true
        ≡ (if is_listed (some "member") none true then resolve "member" none true else "viewer"))
    × (resolve "member" none true ≡ (
        if is_listed (some "member") none true then listed_role (some "member") none true else ""))
listed_role-eq-resolve_iff_example = listed_role-eq-resolve_iff "member" none true
