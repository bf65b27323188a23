-- ===== src/Runs/Finalize/Effects.antt =====
-- The status that a run has after the finalizer, and what the plan phase lets through.
use mathlib.Core.Option
use crucible_iap.Base.{
  String, ◌≡◌, refl, ap, ◌∙◌, Bool, false, not, ◌&&◌, ◌||◌, Option, none, some, List, [], ◌∷◌, ◌++◌,
  inl, inr, arith, if◌then◌else◌, Bool-cases, Option-cases, find?, update_where,
}
use crucible_iap.Db.{RunStatus, unconfirmed, pending_approval, confirmed, Run, RunJobArgs, Db}
use crucible_iap.Db.Env.{Env, Float64}
use crucible_iap.Db.Query.{find_run, status_of}
use crucible_iap.Policy.{Policy, EvalRecord, evaluate_by_ids}
use crucible_iap.Runs.Review.{is_run}
use crucible_iap.Runs.Budget.{
  check_budget_thresholds, check_cost_quota, apply_project_cost_quota, Breach,
}
use crucible_iap.Runs.PlanPolicies.{
  PlanInput, Gate, record_results, evaluate_ids, open_gate, plan_input, policy_ids,
  evaluate_plan_policies,
}
use crucible_iap.Runs.Finalize.{
  is_tracked, set_status, settle_plan, alert_breaches, after_policies, budget_gates,
  complete_plan_phase, enqueue_apply,
}

-- the status that `completePlanPhase` settles on, when no policy denies
abbrev pub settled_status : RunJobArgs → Bool → Bool → RunStatus
settled_status args asks blocked =
    if args.auto_apply && is_tracked args.run_type && not asks && not blocked
    then confirmed
    else if asks
    then pending_approval
    else unconfirmed

module _ {C : Type 0} where
  -- the status of a run is the one that an update of its rows sets
  pub update-status :
      (id : String) (f : Run C → Run C) (s : RunStatus) (rs : List (Run C)) {r : Run C}
      → find? (is_run id) rs ≡ some r
      → ((x : Run C) → (f x).status ≡ s)
      → ((x : Run C) → (f x).id ≡ x.id)
      → Option.map (λ x. x.status) (find? (is_run id) (update_where (is_run id) f rs)) ≡ some s
  update-status id f s [] e h k = absurd (ground arith)
  update-status id f s (x ∷ xs) {r} e h k = elim (Bool-cases (is_run id x)) [
    | inl g ↦ ground (arith, h x, k x)
    | inr g ↦ ground (arith, update-status id f s xs {r = r} (ground arith) h k)
  ]

  enqueue_apply-runs : (args : RunJobArgs) (db : Db C) → (enqueue_apply args db).runs ≡ db.runs
  unfolding enqueue_apply
  enqueue_apply-runs args db = ground arith

  pub settled-status :
      (id : String) (f : Run C → Run C) (st : RunStatus) (db db' : Db C) {r : Run C}
      → find_run id db ≡ some r
      → db'.runs ≡ update_where (is_run id) f db.runs
      → ((x : Run C) → (f x).status ≡ st)
      → ((x : Run C) → (f x).id ≡ x.id)
      → status_of id db' ≡ some st
  settled-status id f st db db' {r} e h k i =
      ap (λ rs. Option.map (λ x. x.status) (find? (is_run id) rs)) h
      ∙ update-status id f st db.runs {r = r} e k i

  settle_plan-status :
      (env : Env) (org : String) (args : RunJobArgs) (asks blocked : Bool) (db : Db C) {r : Run C}
      → find_run args.run_id db ≡ some r
      → status_of args.run_id (settle_plan env org args asks blocked db)
        ≡ some (settled_status args asks blocked)
  unfolding set_status
  settle_plan-status env org args asks blocked db {r} e =
      elim (Bool-cases (args.auto_apply && is_tracked args.run_type && not asks && not blocked)) [
        | inl h ↦
            settled-status args.run_id
              (λ x. record x { status = confirmed; approved_by = none; approved_at = some env.now })
              (settled_status args asks blocked) db (settle_plan env org args asks blocked db)
              {r = r} e (rw h (enqueue_apply-runs args _)) (λ x. ground (arith, h)) (λ x. refl)
        | inr h ↦
            settled-status args.run_id
              (λ x. record x {
                status = if asks then pending_approval else unconfirmed;
                finished_at = some env.now;
              })
              (settled_status args asks blocked) db (settle_plan env org args asks blocked db)
              {r = r} e (rw h refl) (λ x. rw h refl) (λ x. refl)
      ]

  record_results-runs :
      (id : String) (es : List EvalRecord) (g : Gate) (db : Db C)
      → (record_results id es g db).1.runs ≡ db.runs
  record_results-runs id [] g db = refl
  record_results-runs id (e ∷ es) g db = record_results-runs id es _ _

  evaluate_ids-runs :
      (engine : List (Policy (PlanInput C))) (id : String) (input : PlanInput C) (ids : List String)
      (db : Db C)
      → (evaluate_ids engine id input ids db).1.runs ≡ db.runs
  unfolding evaluate_ids
  evaluate_ids-runs engine id input [] db = refl
  evaluate_ids-runs engine id input (x ∷ xs) db =
      elim (Option-cases (evaluate_by_ids engine (x ∷ xs) input)) [
        | inl e ↦ rw (e, evaluate_ids) refl
        | inr ((m, es), e) ↦ rw (e, evaluate_ids) (record_results-runs id es open_gate db)
      ]

  pub evaluate-runs :
      (engine : Option (List (Policy (PlanInput C)))) (args : RunJobArgs) (db : Db C)
      → (evaluate_plan_policies engine args db).1.runs ≡ db.runs
  unfolding evaluate_plan_policies
  evaluate-runs none args db = refl
  evaluate-runs (some engine) args db = elim (Option-cases (plan_input args db)) [
    | inl e ↦ rw (e, evaluate_plan_policies) refl
    | inr (i, e) ↦
        rw (e, evaluate_plan_policies)
          (evaluate_ids-runs engine args.run_id i (policy_ids args.stack_id db) db)
  ]

  -- a row keeps its place when others are added behind it
  pub find-before :
      (id : String) (rs more : List (Run C)) {r : Run C}
      → find? (is_run id) rs ≡ some r
      → find? (is_run id) (rs ++ more) ≡ some r
  find-before id [] more e = absurd (ground arith)
  find-before id (x ∷ xs) more {r} e = ground (arith, find-before id xs more {r = r})

module _ {C : Type 0} ⦃F : Float64 C⦄ where
  -- whether the two cost gates hold back an automatic apply
  abbrev pub is_blocked : Env → RunJobArgs → Db C → Bool
  is_blocked env args db =
      let (blocked, alerted) = alert_breaches args (check_budget_thresholds args.run_id db) db in
      blocked || (apply_project_cost_quota env args.run_id alerted).0

  alert_breaches-runs :
      (args : RunJobArgs) (bs : List Breach) (db : Db C)
      → (alert_breaches args bs db).1.runs ≡ db.runs
  alert_breaches-runs args [] db = refl
  alert_breaches-runs args (b ∷ bs) db = refl

  cost_quota-runs :
      (env : Env) (id : String) (db : Db C) → (apply_project_cost_quota env id db).1.runs ≡ db.runs
  unfolding apply_project_cost_quota
  cost_quota-runs env id db = elim (Option-cases (check_cost_quota env id db)) [
    | inl e ↦ rw (e, apply_project_cost_quota) refl
    | inr (q, e) ↦ rw (e, apply_project_cost_quota) (ground arith)
  ]

  budget_gates-status :
      (env : Env) (org : String) (args : RunJobArgs) (asks : Bool) (db : Db C) {r : Run C}
      → find_run args.run_id db ≡ some r
      → status_of args.run_id (budget_gates env org args asks db)
        ≡ some (settled_status args asks (is_blocked env args db))
  unfolding budget_gates
  budget_gates-status env org args asks db {r} e =
      let alerted = (alert_breaches args (check_budget_thresholds args.run_id db) db).1 in
      let checked = (apply_project_cost_quota env args.run_id alerted).1 in
      settle_plan-status env org args asks (is_blocked env args db) checked {r = r} (
        ap (λ rs. find? (is_run args.run_id) rs)
          (cost_quota-runs env args.run_id alerted
            ∙ alert_breaches-runs args (check_budget_thresholds args.run_id db) db)
        ∙ e)

  -- After the plan phase of a run that exists and that no policy denies, the run is confirmed exactly when its job
  -- applies automatically, its type is tracked, no policy asks for approval and no cost gate holds it
  -- back; else it is pending approval or unconfirmed, by whether a policy asks for approval.
  pub plan_phase-status :
      (engine : Option (List (Policy (PlanInput C)))) (env : Env) (org : String) (args : RunJobArgs)
      (db : Db C) {r : Run C}
      → find_run args.run_id db ≡ some r
      → (evaluate_plan_policies engine args db).0.denied ≡ false
      → status_of args.run_id (complete_plan_phase engine env org args db).1
        ≡ some (
            settled_status args
              (evaluate_plan_policies engine args db).0.requires_approval
              (is_blocked env args (evaluate_plan_policies engine args db).1))
  unfolding complete_plan_phase after_policies
  plan_phase-status engine env org args db {r} e h =
      rw (h, complete_plan_phase)
        (budget_gates-status env org args
          (evaluate_plan_policies engine args db).0.requires_approval
          (evaluate_plan_policies engine args db).1 {r = r}
          (ap (λ rs. find? (is_run args.run_id) rs) (evaluate-runs engine args db) ∙ e))
