-- ===== src/Tests/Events.antt =====
-- The events of a webhook at concrete inputs.
use crucible_iap.Base.{
  ℕ, String, ◌≡◌, ◌≢◌, refl, Bool, true, false, Option, none, some, [], ◌∷◌, ◌++◌, str_eq,
}
use crucible_iap.Db.{confirmed, null, no_source, Run, RunJobArgs, Db, Stack}
use crucible_iap.Runs.Finalize.{complete_plan_phase}
use crucible_iap.Db.Query.{find_run, status_of}
use crucible_iap.Quotas.{check_concurrent_quota, count_active_runs}
use crucible_iap.Runs.PlanPolicies.{evaluate_plan_policies}
use crucible_iap.Webhooks.{
  Texts, skip_reason, dispatch_event, paths_match_any_glob, push_policy_skip_reason,
}
use crucible_iap.Webhooks.Events.{WebhookEvent, push_event}
use crucible_iap.Webhooks.Deliveries.{Filters, Hook, Arrival, Inbox}
use crucible_iap.Webhooks.Gates.{dispatch_event-waits}
use crucible_iap.Tests.Fixtures.{nat_cost, env, stack, db_of}

-- a pattern is the path that it matches
abbrev pub compile : String → Option (String → Bool)
compile g = some (str_eq g)

abbrev pub texts : Texts
texts = record { contains = str_eq; to_lower = λ s. s; trim_space = λ s. s }

abbrev pub decimal : ℕ → String
decimal n = "7"

abbrev filters : Filters
filters = record {
  trigger_paths = "main.tf" ∷ [];
  skip_commit_message_patterns = "[skip ci]" ∷ [];
  skip_actors = "bot" ∷ [];
}

abbrev pub hook : Hook
hook = record {
  stack_id = "net";
  webhook_secret = some "s3cret";
  filters = filters;
  module_namespace = none;
  module_name = none;
  module_provider = none;
  pr_preview_enabled = true;
  pr_preview_template_id = some "t1";
  preview_source_stack_id = none;
  preview_pr_number = none;
}

abbrev pub preview : Hook
preview = record hook {
  stack_id = "pre";
  preview_source_stack_id = some "net";
  preview_pr_number = some 7;
}

abbrev pub net : Stack ℕ
net = stack null none

abbrev pub inbox : Inbox ℕ String
inbox = record {
  db = db_of [] net;
  hooks = hook ∷ [];
  templates = (record { id = "t1"; org_id = "acme"; source = no_source; auto_apply = false }) ∷ [];
  publishes = [];
  deliveries = [];
}

abbrev push : WebhookEvent
push = push_event "" "c0" "grow" ("README" ∷ "main.tf" ∷ []) "ann"

abbrev pub arrival : Arrival String
arrival = record { forge = "github"; event_type = "push"; delivery_id = "d1"; payload = "push" }

dispatch_event-waits_example :
    (j : RunJobArgs) × ((dispatch_event compile texts decimal env "new" "net" arrival push
        inbox).1.db.jobs
      ≡ [] ++ (record { args = j; scheduled_at = none }) ∷ [])
    × ((org : String) (db : Db ℕ) (r : Run ℕ)
        → find_run j.run_id db ≡ some r
        → (evaluate_plan_policies none j db).0.denied ≡ false
        → status_of j.run_id (complete_plan_phase ⦃F = nat_cost⦄ none env org j db).1
          ≢ some confirmed)
unfolding skip_reason paths_match_any_glob push_policy_skip_reason check_concurrent_quota
    count_active_runs
dispatch_event-waits_example =
    dispatch_event-waits compile texts decimal ⦃F = nat_cost⦄ none env env "new" "net" arrival push
      inbox net hook (refl, refl, refl, refl, refl, refl) refl refl
