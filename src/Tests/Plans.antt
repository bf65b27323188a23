-- ===== src/Tests/Plans.antt =====
-- The gates after a plan, and the ends of a run, at concrete inputs.
use crucible_iap.Base.{ℕ, ◌≡◌, refl, not, true, false, none, some, List, [], ◌∷◌, ◌++◌, ◌⊎◌, any}
use crucible_iap.Db.{planning, finished, confirmed, tracked, typed, null, Run, Db}
use crucible_iap.Db.Query.{status_of}
use crucible_iap.Deps.Predicate.{RunFields}
use crucible_iap.Base.Int.{pos}
use crucible_iap.Policy.{
  parse_object, field_of, array_strings, strings, is_true, PolicyResult, EvalRecord,
  extract_strings, extract_bool, parse_result_set, evaluate_all, evaluate_by_ids,
}
use crucible_iap.Policy.Merging.{denies, evaluate_by_ids-verdict}
use crucible_iap.Runs.PlanPolicies.{PlanInput, evaluate_plan_policies}
use crucible_iap.Runs.PlanPolicies.Verdict.{gate-merged}
use crucible_iap.Runs.Budget.{check_budget_thresholds, apply_project_cost_quota, check_cost_quota}
use crucible_iap.Runs.Finalize.{complete_plan_phase, maybe_retry_dep_run}
use crucible_iap.Runs.Finalize.Effects.{plan_phase-status}
use crucible_iap.Runs.Finalize.Retry.{retry-bounded, Retried}
use crucible_iap.Tests.Fixtures.{nat_cost, env, run, stack, edge, db_of, job, policy, denial}

abbrev planned : Db ℕ
planned = db_of (run "r1" planning tracked none ∷ []) (stack null none)

abbrev input : PlanInput ℕ
input = record {
  run_id = "r1";
  type = tracked;
  trigger = "manual";
  plan_add = pos 3;
  plan_change = pos 0;
  plan_destroy = pos 0;
  cost_add = none;
  cost_change = none;
  cost_remove = none;
  stack_id = "net";
  stack_name = "network";
  stack_slug = "network";
}

plan_phase-status_example :
    status_of "r1"
      (complete_plan_phase ⦃F = nat_cost⦄ none env "acme" (job (typed tracked)) planned).1
    ≡ some confirmed
unfolding evaluate_plan_policies check_budget_thresholds apply_project_cost_quota check_cost_quota
plan_phase-status_example =
    plan_phase-status ⦃F = nat_cost⦄ none env "acme" (job (typed tracked)) planned
      {r = run "r1" planning tracked none} refl refl

abbrev denied_result : PolicyResult
denied_result = record {
  allow = false;
  deny = "no" ∷ [];
  warn = [];
  trigger = [];
  require_approval = false;
}

abbrev denied_records : List EvalRecord
denied_records =
    (record {
      policy_id = "p1";
      policy_name = "guard";
      policy_type = "post_plan";
      result = denied_result;
    })
    ∷ []

evaluate_by_ids-verdict_example : denied_result.allow ≡ not (any denies denied_records)
unfolding evaluate_by_ids evaluate_all parse_result_set parse_object extract_strings extract_bool
    field_of array_strings strings is_true
evaluate_by_ids-verdict_example =
    (evaluate_by_ids-verdict (policy (some denial) ∷ []) ("p1" ∷ []) input {out = denied_result}
      {recs = denied_records} refl).0

gate-merged_example :
    (evaluate_plan_policies
      (some (policy (some denial) ∷ []))
      (job (typed tracked))
      planned).0.denied
    ≡ true
unfolding evaluate_by_ids evaluate_all parse_result_set parse_object extract_strings extract_bool
    field_of array_strings strings is_true
gate-merged_example =
    (gate-merged (policy (some denial) ∷ []) (job (typed tracked)) planned input "p1" []
      denied_result denied_records refl refl refl).0

retry-bounded_example :
    ((maybe_retry_dep_run env "acme" "r1" planned).runs ≡ planned.runs)
    ⊎ ((new : Run ℕ) × ((maybe_retry_dep_run env "acme" "r1" planned).runs
          ≡ planned.runs ++ new ∷ [])
        × Retried (run "r1" planning tracked none) edge new)
retry-bounded_example =
    retry-bounded env "acme" "r1" planned (run "r1" planning tracked none) edge refl refl

abbrev fields : RunFields ℕ
fields = record {
  type = "tracked";
  plan_add = pos 3;
  plan_change = pos 0;
  plan_destroy = pos 0;
  cost_change = 0;
  is_drift = false;
}

abbrev applied : Db ℕ
applied = db_of (run "r1" finished tracked none ∷ []) (stack null none)
