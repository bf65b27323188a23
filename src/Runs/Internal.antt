-- ===== src/Runs/Internal.antt =====
-- internal/runs/internal.go: what a runner container reports about its run. `token_run` is the run
-- that its token is scoped to.
use crucible_iap.Base.{
  String, Bool, not, ◌&&◌, Option, none, some, str_eq, str_append, if◌then◌else◌, any,
}
use crucible_iap.Base.Int.{ℤ}
use crucible_iap.Db.{RunStatus, planning, applying, Run, Event, Db}
use crucible_iap.Db.Env.{Result, ok, http_error}
use crucible_iap.Db.Query.{update_runs, audit}
use crucible_iap.Runs.Status.{is_terminal, status_name}
use crucible_iap.Runs.Review.{is_run}

-- the map `allowed` of `ReportStatus`
unfoldable pub reportable : String → Option RunStatus
reportable s =
    if str_eq s "planning"
    then some planning
    else if str_eq s "applying"
    then some applying
    else none

abbrev runner_event : String → String → Event
runner_event action id = record {
  actor_id = "";
  actor_type = "runner";
  action = action;
  resource_id = id;
  org_id = "";
}

module _ {C : Type 0} where
  abbrev pub reports : String → Run C → Bool
  reports id x = is_run id x && not (is_terminal x.status)

  unfoldable pub report : String → RunStatus → Db C → Result (Unit {0}) × Db C
  report id status db =
      if any (reports id) db.runs
      then (
        ok tt,
        audit (runner_event (str_append "run.status." (status_name status)) id)
            (update_runs (reports id) (λ x. record x { status = status }) db),
      )
      else (http_error 409, db)

  -- `ReportStatus`
  unfoldable pub report_status : String → String → String → Db C → Result (Unit {0}) × Db C
  unfolding report reportable
  report_status token_run id status db =
      if not (str_eq token_run id)
      then (http_error 403, db)
      else (elim (reportable status) [ none ↦ (http_error 400, db) | some s ↦ report id s db ])

  -- `ReportPlanSummary`
  unfoldable pub report_plan_summary : String → String → ℤ → ℤ → ℤ → Db C → Result (Unit {0}) × Db C
  report_plan_summary token_run id add change destroy db =
      if not (str_eq token_run id) then (http_error 403, db) else (
        ok tt,
        update_runs (is_run id)
            (λ x. record x {
              plan_add = some add;
              plan_change = some change;
              plan_destroy = some destroy;
            })
            db,
      )

  -- `ReportCost`
  unfoldable pub report_cost :
      String → String → C → C → C → String → Db C → Result (Unit {0}) × Db C
  report_cost token_run id add change remove currency db =
      if not (str_eq token_run id) then (http_error 403, db) else (
        ok tt,
        update_runs (is_run id)
            (λ x. record x {
              cost_add = some add;
              cost_change = some change;
              cost_remove = some remove;
              cost_currency = some currency;
            })
            db,
      )
