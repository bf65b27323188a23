-- ===== src/Runs/Drift.antt =====
-- internal/runs/handler.go: `TriggerDrift`, the request for a drift check of a stack. The route asks
-- for a member of the caller's own organisation.
use crucible_iap.Base.{String, ◌≡◌, refl, true, false, none, some, [], ◌∷◌, ◌++◌}
use crucible_iap.Db.{proposed, Run, Stack, typed, RunJobArgs, Job, Db}
use crucible_iap.Db.Env.{Env, Caller, Result, ok, http_error}
use crucible_iap.Db.Query.{NewRun, find_stack, insert_run, inserted, enqueue_run, audit}
use crucible_iap.Quotas.{QuotaCheck, under, exceeded, check_concurrent_quota}
use crucible_iap.Runs.Review.{user_event}

abbrev pub drift_run : String → NewRun
drift_run stack_id = record {
  stack_id = stack_id;
  worker_pool_id = none;
  type = proposed;
  trigger = "manual";
  is_drift = true;
  var_overrides = [];
  triggered_by_dep_id = none;
  retry_attempt = 0;
}

module _ {C : Type 0} where
  abbrev pub drift_job : Env → String → Stack C → Db C → RunJobArgs
  drift_job env stack_id s db = record {
    run_id = env.uuid db.serial;
    stack_id = stack_id;
    source = s.source;
    run_type = typed proposed;
    api_url = env.api_url;
    auto_apply = false;
    var_overrides = [];
  }

  -- `TriggerDrift` after `checkRunQuota`
  unfoldable pub start_drift :
      Env → Caller → String → Stack C → QuotaCheck → Db C → Result String × Db C
  start_drift env c stack_id s (exceeded limit active) db = (http_error 429, db)
  start_drift env c stack_id s under db = (
    ok (env.uuid db.serial),
    audit (user_event c.user_id "run.drift.triggered" (env.uuid db.serial))
        (enqueue_run (drift_job env stack_id s db) (insert_run env (drift_run stack_id) db)),
  )

  -- `TriggerDrift`
  unfoldable pub trigger_drift : Env → Caller → String → Db C → Result String × Db C
  unfolding start_drift
  trigger_drift env c stack_id db = elim (find_stack stack_id db) [
    | none ↦ (http_error 404, db)
    | some s ↦ start_drift env c stack_id s (check_concurrent_quota c.org_id db) db
  ]

  -- While the caller's own organisation is below its quota, a drift check of any stack that exists is
  -- started, with a run and a job of that stack: also of a stack of another organisation, and of one
  -- that is locked or disabled.
  pub trigger_drift-unscoped :
      (env : Env) (c : Caller) (stack_id : String) (s : Stack C) (db : Db C)
      → find_stack stack_id db ≡ some s
      → check_concurrent_quota c.org_id db ≡ under
      → ((trigger_drift env c stack_id db).0 ≡ ok (env.uuid db.serial))
        × (new : Run C) × ((trigger_drift env c stack_id db).1.runs ≡ db.runs ++ new ∷ [])
        × (new.stack_id ≡ stack_id)
        × (j : Job) × ((trigger_drift env c stack_id db).1.jobs ≡ db.jobs ++ j ∷ [])
        × (j.args.stack_id ≡ stack_id)
        × (j.args.source ≡ s.source)
  unfolding trigger_drift start_drift
  trigger_drift-unscoped env c stack_id s db f q = (
    rw (f, trigger_drift) (rw q refl),
    inserted env (drift_run stack_id) db,
    rw (f, trigger_drift) (rw q refl),
    refl,
    record { args = drift_job env stack_id s db; scheduled_at = none },
    rw (f, trigger_drift) (rw q refl),
    refl,
    refl,
  )
