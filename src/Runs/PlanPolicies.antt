-- ===== src/Runs/PlanPolicies.antt =====
-- internal/runs/finalize.go, `evaluatePlanPolicies`: the policy gate after a plan.
pub mod Verdict
use crucible_iap.Base.{
  String, Bool, true, false, not, ◌&&◌, ◌||◌, Option, none, some, List, [], ◌∷◌, ◌++◌, str_eq,
  if◌then◌else◌, any, keep, map,
}
use crucible_iap.Base.Int.{ℤ}
use crucible_iap.Db.{RunType, Run, Stack, PolicyRow, PolicyRecord, Link, RunJobArgs, Db}
use crucible_iap.Db.Query.{find_run, find_stack}
use crucible_iap.Policy.{PolicyResult, Policy, EvalRecord, evaluate_by_ids}
use crucible_iap.Runs.Budget.{or_zero}

-- the document that the policies see
pub record PlanInput (C : Type 0) : Type 0 where
  pub run_id : String
  pub type : RunType
  pub trigger : String
  pub plan_add : ℤ
  pub plan_change : ℤ
  pub plan_destroy : ℤ
  pub cost_add : Option C
  pub cost_change : Option C
  pub cost_remove : Option C
  pub stack_id : String
  pub stack_name : String
  pub stack_slug : String

-- The three results; `failed` stands for the error.
pub record Gate : Type 0 where
  pub denied : Bool
  pub requires_approval : Bool
  pub failed : Bool

abbrev pub open_gate : Gate
open_gate = record { denied = false; requires_approval = false; failed = false }

abbrev failed_gate : Gate
failed_gate = record { denied = false; requires_approval = false; failed = true }

abbrev pub links : String → String → List Link → Bool
links a b = any (λ l. str_eq l.0 a && str_eq l.1 b)

abbrev pub links_source : String → Option String → List Link → Bool
links_source a none l = false
links_source a (some b) l = links a b l

abbrev gates_plan : PolicyRow → Bool
gates_plan p = str_eq p.type "post_plan" || str_eq p.type "approval"

module _ {C : Type 0} where
  -- an active policy of the two types, attached to the stack, its organisation or a source of it
  abbrev pub applies_to : Stack C → Db C → PolicyRow → Bool
  applies_to s db p =
      p.is_active
      && gates_plan p
      && (links s.id p.id db.stack_policies
          || links s.org_id p.id db.org_policy_defaults
          || links_source s.id p.git_source_id db.stack_policy_sources)

  abbrev pub policy_ids : String → Db C → List String
  policy_ids stack db = elim (find_stack stack db) [
    | none ↦ []
    | some s ↦ map (λ p. p.id) (keep (applies_to s db) db.policies)
  ]

  abbrev input_of : Run C → Stack C → String → PlanInput C
  input_of r s stack_id = record {
    run_id = r.id;
    type = r.type;
    trigger = r.trigger;
    plan_add = or_zero r.plan_add;
    plan_change = or_zero r.plan_change;
    plan_destroy = or_zero r.plan_destroy;
    cost_add = r.cost_add;
    cost_change = r.cost_change;
    cost_remove = r.cost_remove;
    stack_id = stack_id;
    stack_name = s.name;
    stack_slug = s.slug;
  }

  abbrev pub plan_input : RunJobArgs → Db C → Option (PlanInput C)
  plan_input args db = elim (find_run args.run_id db) [
    | none ↦ none
    | some r ↦ elim (find_stack r.stack_id db) [
      | none ↦ none
      | some s ↦ some (input_of r s args.stack_id)
    ]
  ]

abbrev pub result_row : String → EvalRecord → PolicyRecord
result_row run e = record {
  run_id = run;
  policy_id = e.policy_id;
  policy_name = e.policy_name;
  policy_type = e.policy_type;
  allow = e.result.allow;
  deny_msgs = e.result.deny;
  warn_msgs = e.result.warn;
}

module _ {C : Type 0} where
  -- the loop over the records
  abbrev pub record_results : String → List EvalRecord → Gate → Db C → Gate × Db C
  record_results run [] gate db = (gate, db)
  record_results run (e ∷ rest) gate db =
      record_results run rest
        (record gate {
          denied = gate.denied || not e.result.allow;
          requires_approval = gate.requires_approval || e.result.require_approval;
        })
        (record db { run_policy_results = db.run_policy_results ++ result_row run e ∷ [] })

  unfoldable pub evaluate_ids :
      List (Policy (PlanInput C)) → String → PlanInput C → List String → Db C → Gate × Db C
  evaluate_ids engine run input [] db = (open_gate, db)
  evaluate_ids engine run input (id ∷ ids) db = elim (evaluate_by_ids engine (id ∷ ids) input) [
    | none ↦ (failed_gate, db)
    | some (merged, records) ↦ record_results run records open_gate db
  ]

  -- `evaluatePlanPolicies`; an engine that is not set is `none`
  unfoldable pub evaluate_plan_policies :
      Option (List (Policy (PlanInput C))) → RunJobArgs → Db C → Gate × Db C
  unfolding evaluate_ids
  evaluate_plan_policies none args db = (open_gate, db)
  evaluate_plan_policies (some engine) args db = elim (plan_input args db) [
    | none ↦ (failed_gate, db)
    | some input ↦ evaluate_ids engine args.run_id input (policy_ids args.stack_id db) db
  ]
