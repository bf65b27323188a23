-- ===== src/Runs/PlanPolicies/Verdict.antt =====
-- What the gate after a plan takes from the policies.
use crucible_iap.Base.{
  String, ◌≡◌, refl, sym, ◌∙◌, false, not, ◌||◌, none, some, List, [], ◌∷◌, arith, any,
}
use crucible_iap.Db.{RunJobArgs, Db}
use crucible_iap.Policy.{PolicyResult, Policy, EvalRecord, evaluate_by_ids}
use crucible_iap.Policy.Merging.{denies, asks, evaluate_by_ids-verdict}
use crucible_iap.Runs.PlanPolicies.{
  PlanInput, Gate, open_gate, record_results, plan_input, policy_ids, evaluate_ids,
  evaluate_plan_policies,
}

module _ {C : Type 0} where
  record_results-denied :
      (id : String) (es : List EvalRecord) (g : Gate) (db : Db C)
      → (record_results id es g db).0.denied ≡ (g.denied || any denies es)
  record_results-denied id [] g db = ground arith
  record_results-denied id (e ∷ es) g db = record_results-denied id es _ _ ∙ ground arith

  record_results-asks :
      (id : String) (es : List EvalRecord) (g : Gate) (db : Db C)
      → (record_results id es g db).0.requires_approval ≡ (g.requires_approval || any asks es)
  record_results-asks id [] g db = ground arith
  record_results-asks id (e ∷ es) g db = record_results-asks id es _ _ ∙ ground arith

  gate-evaluated :
      (engine : List (Policy (PlanInput C))) (args : RunJobArgs) (db : Db C) (input : PlanInput C)
      (i : String) (ids : List String) {out : PolicyResult} {recs : List EvalRecord}
      → plan_input args db ≡ some input
      → policy_ids args.stack_id db ≡ i ∷ ids
      → evaluate_by_ids engine (i ∷ ids) input ≡ some (out, recs)
      → evaluate_plan_policies (some engine) args db ≡ record_results args.run_id recs open_gate db
  unfolding evaluate_plan_policies evaluate_ids
  gate-evaluated engine args db input i ids e f h =
      rw (e, evaluate_plan_policies) (rw (f, evaluate_ids) (rw h refl))

  -- With at least one policy attached and every query answered, the gate denies exactly when the
  -- merged result does not allow, and asks for approval exactly when the merged result does.
  pub gate-merged :
      (engine : List (Policy (PlanInput C))) (args : RunJobArgs) (db : Db C) (input : PlanInput C)
      (i : String) (ids : List String) (out : PolicyResult) (recs : List EvalRecord)
      → plan_input args db ≡ some input
      → policy_ids args.stack_id db ≡ i ∷ ids
      → evaluate_by_ids engine (i ∷ ids) input ≡ some (out, recs)
      → ((evaluate_plan_policies (some engine) args db).0.denied ≡ not out.allow)
        × ((evaluate_plan_policies (some engine) args db).0.requires_approval
            ≡ out.require_approval)
  gate-merged engine args db input i ids out recs e f h =
      let (a, q) = evaluate_by_ids-verdict engine (i ∷ ids) input {out = out} {recs = recs} h in
      rw (gate-evaluated engine args db input i ids {out = out} {recs = recs} e f h) (
        record_results-denied args.run_id recs open_gate db ∙ ground (arith, a),
        record_results-asks args.run_id recs open_gate db ∙ sym q,
      )

  evaluate_ids-none :
      (engine : List (Policy (PlanInput C))) (id : String) (input : PlanInput C) (ids : List String)
      (db : Db C)
      → evaluate_by_ids engine ids input ≡ none
      → ((evaluate_ids engine id input ids db).0.denied ≡ false)
        × ((evaluate_ids engine id input ids db).0.requires_approval ≡ false)
        × ((evaluate_ids engine id input ids db).1 ≡ db)
  unfolding evaluate_ids
  evaluate_ids-none engine id input [] db h = (refl, refl, refl)
  evaluate_ids-none engine id input (i ∷ ids) db h = rw (h, evaluate_ids) (refl, refl, refl)

  -- When the query of a policy that is attached fails, the gate is open, and what the others would
  -- have denied is not recorded.
  pub gate-fails_open :
      (engine : List (Policy (PlanInput C))) (args : RunJobArgs) (db : Db C) (input : PlanInput C)
      → plan_input args db ≡ some input
      → evaluate_by_ids engine (policy_ids args.stack_id db) input ≡ none
      → ((evaluate_plan_policies (some engine) args db).0.denied ≡ false)
        × ((evaluate_plan_policies (some engine) args db).0.requires_approval ≡ false)
        × ((evaluate_plan_policies (some engine) args db).1 ≡ db)
  unfolding evaluate_plan_policies
  gate-fails_open engine args db input e h =
      rw (e, evaluate_plan_policies)
        (evaluate_ids-none engine args.run_id input (policy_ids args.stack_id db) db h)
