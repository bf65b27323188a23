-- ===== src/Runs/Finalize.antt =====
-- internal/runs/finalize.go: the transitions after an execution, for the built-in worker and the
-- external agents alike. What the code starts in the background runs after the rest.
pub mod Effects
pub mod Retry
pub mod Endings
pub mod Deletion
use crucible_iap.Base.{
  ℕ, suc, ◌+◌, ◌*◌, ◌^◌, String, Bool, true, false, not, ◌&&◌, ◌||◌, Option, none, some, List, [],
  ◌∷◌, ◌++◌, str_eq, str_append, leb, ltb, if◌then◌else◌, keep, find?, any,
}
use crucible_iap.Base.Int.{◌+ℤ◌, is_zero_ℤ}
use crucible_iap.Db.{
  RunStatus, unconfirmed, pending_approval, confirmed, finished, failed, RunType, tracked, proposed,
  destroy, Run, Stack, Dependency, RunJobArgs, JobType, typed, apply, Event, Notice, plan_complete,
  run_finished, budget_alert, Db,
}
use crucible_iap.Db.Env.{Env, Float64}
use crucible_iap.Db.Query.{
  find_run, find_stack, update_runs, audit, notify, enqueue_run, enqueue_run_delayed, insert_run,
  pool_of, NewRun,
}
use crucible_iap.Policy.{Policy}
use crucible_iap.Runs.Status.{status_name}
use crucible_iap.Runs.Review.{is_run}
use crucible_iap.Runs.Budget.{
  Breach, or_zero, check_budget_thresholds, apply_project_cost_quota, stack_blocks_on_alert,
}
use crucible_iap.Runs.Downstream.{trigger_downstream_stacks}
use crucible_iap.Runs.PlanPolicies.{PlanInput, Gate, evaluate_plan_policies}

-- What a finalizer method returns: nil, or the cause of a failure.
pub data Outcome : Type 0 where
  done errored : Outcome

abbrev pub runner_event : String → String → String → Event
runner_event org action id = record {
  actor_id = "";
  actor_type = "runner";
  action = action;
  resource_id = id;
  org_id = org;
}

abbrev is_tracked : JobType → Bool
is_tracked (typed tracked) = true
is_tracked _ = false

abbrev pub started : ℕ → Option ℕ → Option ℕ
started now none = some now
started now (some t) = some t

-- the exponent of the backoff, capped at 10
abbrev pub capped : ℕ → ℕ
capped attempt = if ltb 10 attempt then 10 else attempt

-- in seconds; the code multiplies by `time.Second`
abbrev pub retry_delay : ℕ → ℕ → ℕ
retry_delay backoff attempt = backoff * 2 ^ capped attempt

-- the values of the enum run_trigger, from 001_initial, 034_scheduled_destroy and 045_scheduled_runs
abbrev run_triggers : List String
run_triggers =
    "push" ∷ "pull_request" ∷ "drift_detection" ∷ "manual" ∷ "api" ∷ "dependency"
    ∷ "scheduled_destroy" ∷ "scheduled_plan" ∷ "scheduled_apply" ∷ "scheduled_destroy_cron" ∷ []

unfoldable is_trigger : String → Bool
is_trigger s = any (λ t. str_eq t s) run_triggers

module _ {C : Type 0} where
  -- `SetStatus`: with a finishing time, or else with a starting time on the first transition
  unfoldable pub set_status : Env → String → String → RunStatus → Option ℕ → Db C → Db C
  set_status env org id status none db =
      audit (runner_event org (str_append "run." (status_name status)) id) (
        update_runs (is_run id)
          (λ r. record r { status = status; started_at = started env.now r.started_at }) db)
  set_status env org id status (some t) db =
      audit (runner_event org (str_append "run." (status_name status)) id)
        (update_runs (is_run id) (λ r. record r { status = status; finished_at = some t }) db)

  -- the run that a retry inserts, and its delayed job where no worker pool serves the stack
  abbrev pub schedule_retry : Env → String → Run C → Dependency → Stack C → Db C → Db C
  schedule_retry env org r d s db =
      let inserted = audit (runner_event org "run.dep_retry_scheduled" (env.uuid db.serial)) (
        insert_run env
          (record {
            stack_id = r.stack_id;
            worker_pool_id = s.worker_pool_id;
            type = tracked;
            trigger = "dependency";
            is_drift = false;
            var_overrides = [];
            triggered_by_dep_id = some d.id;
            retry_attempt = r.retry_attempt + 1;
          })
          db) in
      elim s.worker_pool_id [
        | some pool ↦ inserted
        | none ↦
            enqueue_run_delayed
              (record {
                run_id = env.uuid db.serial;
                stack_id = r.stack_id;
                source = s.source;
                run_type = typed tracked;
                api_url = "";
                auto_apply = s.auto_apply;
                var_overrides = [];
              })
              (env.now + retry_delay d.retry_backoff_seconds r.retry_attempt) inserted
      ]

  abbrev pub dependency_of : Run C → Db C → Option Dependency
  dependency_of r db = elim r.triggered_by_dep_id [
    | none ↦ none
    | some dep ↦ find? (λ d. str_eq d.id dep) db.dependencies
  ]

  -- `maybeRetryDepRun`
  unfoldable pub maybe_retry_dep_run : Env → String → String → Db C → Db C
  maybe_retry_dep_run env org id db = elim (find_run id db) [
    | none ↦ db
    | some r ↦ elim (dependency_of r db) [
      | none ↦ db
      | some d ↦ elim (find_stack r.stack_id db) [
        | none ↦ db
        | some s ↦ if leb d.retry_count r.retry_attempt then db else schedule_retry env org r d s db
      ]
    ]
  ]

  abbrev pub set_failed : Env → Run C → Run C
  set_failed env r = record r { status = failed; finished_at = some env.now }

  -- `Fail`
  unfoldable pub fail : Env → String → String → Db C → Db C
  unfolding maybe_retry_dep_run
  fail env org id db =
      maybe_retry_dep_run env org id
        (audit (runner_event org "run.failed" id) (update_runs (is_run id) (set_failed env) db))

  -- `enqueueApply`
  unfoldable pub enqueue_apply : RunJobArgs → Db C → Db C
  enqueue_apply args db = elim (pool_of (find_stack args.stack_id db)) [
    | some pool ↦ db
    | none ↦ enqueue_run (record args { run_type = apply; auto_apply = false }) db
  ]

  -- the alert, and whether the stack holds back auto-apply
  abbrev alert_breaches : RunJobArgs → List Breach → Db C → Bool × Db C
  alert_breaches args [] db = (false, db)
  alert_breaches args (b ∷ rest) db =
      (stack_blocks_on_alert args.stack_id db, notify (budget_alert args.run_id) db)

  -- the last part of `completePlanPhase`: apply at once, or wait for a decision
  abbrev settle_plan : Env → String → RunJobArgs → Bool → Bool → Db C → Db C
  settle_plan env org args requires_approval blocked db =
      if args.auto_apply && is_tracked args.run_type && not requires_approval && not blocked
      then enqueue_apply args (
          update_runs (is_run args.run_id)
            (λ r. record r { status = confirmed; approved_by = none; approved_at = some env.now })
            db)
      else notify (plan_complete args.run_id) (
          set_status env org args.run_id
            (if requires_approval then pending_approval else unconfirmed) (some env.now) db)

  -- planAdd+planChange+planDestroy != 0
  abbrev pub has_changes : Run C → Bool
  has_changes r =
      not (is_zero_ℤ (or_zero r.plan_add +ℤ or_zero r.plan_change +ℤ or_zero r.plan_destroy))

  -- DELETE FROM stacks, with the tables that cascade
  abbrev delete_stack : String → Db C → Db C
  delete_stack stack db = record db {
    stacks = keep (λ s. not (str_eq s.id stack && s.delete_after_destroy)) db.stacks;
    runs = keep (λ r. not (str_eq r.stack_id stack)) db.runs;
    stack_members = keep (λ m. not (str_eq m.stack_id stack)) db.stack_members;
    chain_approvals =
        keep (λ a. not (any (λ r. str_eq r.id a.run_id && str_eq r.stack_id stack) db.runs))
          db.chain_approvals;
    dependencies =
        keep (λ d. not (str_eq d.upstream_id stack || str_eq d.downstream_id stack))
          db.dependencies;
    stack_policies = keep (λ l. not (str_eq l.0 stack)) db.stack_policies;
    stack_policy_sources = keep (λ l. not (str_eq l.0 stack)) db.stack_policy_sources;
  }

  -- the run and the job of a drift remediation; its trigger is no value of the enum, so that the INSERT
  -- is refused, which the source logs
  unfoldable pub remediate : Env → RunJobArgs → Db C → Db C
  unfolding is_trigger
  remediate env args db =
      let fresh : NewRun = record {
        stack_id = args.stack_id;
        worker_pool_id = none;
        type = tracked;
        trigger = "auto_remediate";
        is_drift = true;
        var_overrides = [];
        triggered_by_dep_id = none;
        retry_attempt = 0;
      } in
      if is_trigger fresh.trigger
      then enqueue_run
          (record args {
            run_id = env.uuid db.serial;
            run_type = typed tracked;
            auto_apply = true;
            var_overrides = [];
          })
          (insert_run env fresh db)
      else db

  -- `maybeDeletePreviewStack`; the rows that refer to the stack go with it
  unfoldable pub maybe_delete_preview_stack : String → Db C → Db C
  maybe_delete_preview_stack stack db = elim (find_stack stack db) [
    | none ↦ db
    | some s ↦ if s.delete_after_destroy then delete_stack stack db else db
  ]

  -- `maybeRemediateDrift`
  unfoldable pub maybe_remediate_drift : Env → RunJobArgs → Db C → Db C
  maybe_remediate_drift env args db = elim (find_run args.run_id db) [
    | none ↦ db
    | some r ↦ elim (find_stack r.stack_id db) [
      | none ↦ db
      | some s ↦
          if r.is_drift && s.auto_remediate_drift && has_changes r
          then remediate env args db
          else db
    ]
  ]

module _ {C : Type 0} ⦃F : Float64 C⦄ where
  -- `completePlanPhase` after the policies
  unfoldable pub budget_gates : Env → String → RunJobArgs → Bool → Db C → Db C
  budget_gates env org args requires_approval db =
      let (blocked, alerted) = alert_breaches args (check_budget_thresholds args.run_id db) db in
      let (over_quota, checked) = apply_project_cost_quota env args.run_id alerted in
      settle_plan env org args requires_approval (blocked || over_quota) checked

  unfoldable pub after_policies : Env → String → RunJobArgs → Gate × Db C → Outcome × Db C
  after_policies env org args (gate, db) =
      if gate.denied
      then (errored, fail env org args.run_id db)
      else (done, budget_gates env org args gate.requires_approval db)

  -- `completePlanPhase`
  unfoldable pub complete_plan_phase :
      Option (List (Policy (PlanInput C))) → Env → String → RunJobArgs → Db C → Outcome × Db C
  unfolding after_policies budget_gates
  complete_plan_phase engine env org args db =
      after_policies env org args (evaluate_plan_policies engine args db)

  -- `Complete`
  unfoldable pub complete :
      Option (List (Policy (PlanInput C))) → Env → String → RunJobArgs → Db C → Outcome × Db C
  complete engine env org args db = elim args.run_type [
    | apply ↦ (
      done,
      maybe_delete_preview_stack args.stack_id (
          trigger_downstream_stacks F env org args (
            notify (run_finished args.run_id true)
              (set_status env org args.run_id finished (some env.now) db))),
    )
    | typed proposed ↦ (
      done,
      maybe_remediate_drift env args (
          notify (plan_complete args.run_id)
            (set_status env org args.run_id finished (some env.now) db)),
    )
    | typed _ ↦ complete_plan_phase engine env org args db
  ]
