-- ===== src/Quotas.antt =====
-- internal/quotas/handler.go: the cap on the concurrent runs of an organisation.
pub mod Settings
use crucible_iap.Base.{
  ℕ, String, Bool, false, ◌&&◌, Option, none, some, str_eq, leb, if◌then◌else◌, find?, count_if,
}
use crucible_iap.Db.{Run, Db}
use crucible_iap.Db.Query.{find_stack}
use crucible_iap.Runs.Status.{is_active}

module _ {C : Type 0} where
  -- the JOIN of a run with its stack, in one organisation
  abbrev pub of_org : String → Db C → Run C → Bool
  of_org org db r = elim (find_stack r.stack_id db) [ none ↦ false | some s ↦ str_eq s.org_id org ]

  -- `countActiveRuns`
  unfoldable pub count_active_runs : String → Db C → ℕ
  count_active_runs org db = count_if (λ r. of_org org db r && is_active r.status) db.runs

-- nil, or ErrQuotaExceeded with its limit and the current count
pub data QuotaCheck : Type 0 where
  under : QuotaCheck
  exceeded : ℕ → ℕ → QuotaCheck

abbrev pub check_cap : Option ℕ → ℕ → QuotaCheck
check_cap none active = under
check_cap (some limit) active = if leb limit active then exceeded limit active else under

module _ {C : Type 0} where
  abbrev pub quota_of : String → Db C → Option ℕ
  quota_of org db = elim (find? (λ q. str_eq q.org_id org) db.org_quotas) [
    | none ↦ none
    | some q ↦ q.max_concurrent_runs
  ]

  -- `CheckConcurrentQuota`
  unfoldable pub check_concurrent_quota : String → Db C → QuotaCheck
  check_concurrent_quota org db = check_cap (quota_of org db) (count_active_runs org db)
