-- ===== src/Tests/Fixtures.antt =====
-- An organisation with an admin, a stack with a chain of two approvers, and its runs. Costs are
-- natural numbers here.
use crucible_iap.Base.{
  ℕ, String, true, false, Option, none, some, List, [], ◌∷◌, ◌+◌, ◌*◌, ◌/◌, ltb, ◌==◌,
}
use crucible_iap.Base.Int.{ℤ, pos, negsuc}
use crucible_iap.Db.{
  RunStatus, RunType, Run, Stack, ChainColumn, no_source, ChainStep, RunJobArgs, JobType,
  Dependency, Db,
}
use crucible_iap.Db.Env.{Env, Caller, Float64}
use crucible_iap.Policy.{Policy, ResultSet, Json, Items, Fields}
use crucible_iap.Runs.PlanPolicies.{PlanInput}

abbrev to_cost : ℤ → ℕ
to_cost (pos n) = n
to_cost (negsuc n) = 0

abbrev parse_cost : String → Option ℕ
parse_cost s = some 0

abbrev pub nat_cost : Float64 ℕ
nat_cost = record {
  zero_cost = 0;
  of_int = to_cost;
  add = λ a b. a + b;
  mul = λ a b. a * b;
  div = λ a b. a / b;
  gt = λ a b. ltb b a;
  eq = λ a b. a == b;
  parse = parse_cost;
}

abbrev pub env : Env
env = record {
  now = 1000;
  month_start = 0;
  days_in_month = 30;
  day_of_month = 10;
  uuid = λ n. "run-new";
  api_url = "https://api";
  base_url = "https://base";
}

abbrev pub ann : Caller
ann = record { user_id = "ann"; org_id = "acme"; sa_role = "" }

abbrev pub robot : Caller
robot = record { user_id = "robot"; org_id = "other"; sa_role = "admin" }

abbrev pub run : String → RunStatus → RunType → Option String → Run ℕ
run id status type pool = record {
  id = id;
  stack_id = "net";
  status = status;
  type = type;
  trigger = "manual";
  worker_pool_id = pool;
  is_drift = false;
  var_overrides = "REGION=eu" ∷ [];
  annotation = none;
  approved_by = none;
  approved_at = none;
  escalated_at = none;
  queued_at = 5;
  started_at = none;
  finished_at = none;
  plan_add = some (pos 3);
  plan_change = none;
  plan_destroy = none;
  cost_add = none;
  cost_change = none;
  cost_remove = none;
  cost_currency = none;
  triggered_by_dep_id = some "edge";
  retry_attempt = 1;
}

abbrev pub stack : ChainColumn → Option String → Stack ℕ
stack chain pool = record {
  id = "net";
  org_id = "acme";
  name = "network";
  slug = "network";
  project_id = none;
  source = no_source;
  auto_apply = true;
  is_disabled = false;
  is_locked = false;
  worker_pool_id = pool;
  approval_chain = chain;
  auto_remediate_drift = true;
  delete_after_destroy = false;
  plan_block_on_alert = false;
  plan_alert_add = none;
  plan_alert_change = none;
  plan_alert_destroy = none;
  budget_threshold_usd = none;
  max_concurrent_runs = none;
  escalation_after_minutes = none;
  scheduled_destroy_at = none;
}

-- two steps: ann, then bob
abbrev pub two_steps : List ChainStep
two_steps =
    (record { name = "ops"; approver_user_ids = "ann" ∷ [] })
    ∷ (record { name = "sec"; approver_user_ids = "bob" ∷ [] })
    ∷ []

abbrev pub one_step : List ChainStep
one_step = (record { name = "ops"; approver_user_ids = "ann" ∷ [] }) ∷ []

abbrev pub edge : Dependency
edge = record {
  id = "edge";
  upstream_id = "base";
  downstream_id = "net";
  trigger_when_field = "";
  trigger_when_op = "";
  trigger_when_value = "";
  retry_count = 3;
  retry_backoff_seconds = 60;
}

-- the tables with these runs and this stack
abbrev pub db_of : List (Run ℕ) → Stack ℕ → Db ℕ
db_of runs s = record {
  runs = runs;
  stacks = s ∷ [];
  org_members = (record { org_id = "acme"; user_id = "ann"; role = "admin" }) ∷ [];
  stack_members = [];
  chain_approvals = [];
  dependencies = edge ∷ [];
  org_quotas = (record { org_id = "acme"; max_concurrent_runs = some 2 }) ∷ [];
  projects = [];
  policies =
      (record { id = "p1"; type = "post_plan"; is_active = true; git_source_id = none }) ∷ [];
  stack_policies = ("net", "p1") ∷ [];
  org_policy_defaults = [];
  stack_policy_sources = [];
  run_policy_results = [];
  jobs = [];
  audit_events = [];
  notices = [];
  serial = 0;
}

abbrev pub job : JobType → RunJobArgs
job type = record {
  run_id = "r1";
  stack_id = "net";
  source = no_source;
  run_type = type;
  api_url = "https://api";
  auto_apply = true;
  var_overrides = [];
}

-- policies that deny, allow, and fail, for any input
abbrev pub denial : ResultSet
denial =
    (Json.object
        (Fields.field "deny" (Json.array (Items.cons (Json.string "no") Items.nil)) Fields.end)
      ∷ [])
    ∷ []

abbrev pub policy : Option ResultSet → Policy (PlanInput ℕ)
policy answer = record { id = "p1"; name = "guard"; type = "post_plan"; query = λ input. answer }
