-- ===== src/Runs/Finalize/Endings.antt =====
-- The status in which a run ends when its container succeeds or fails.
use crucible_iap.Base.{
  String, ◌≡◌, refl, sym, ap, ◌∙◌, true, Option, some, List, [], ◌∷◌, inl, inr, arith, ◌&&◌,
  Bool-cases, Option-cases, find?, leb, update_where,
}
use crucible_iap.Db.{
  RunStatus, plan_complete, finished, failed, Run, RunJobArgs, typed, proposed, Db,
}
use crucible_iap.Db.Env.{Env, Float64}
use crucible_iap.Db.Query.{find_run, find_stack, status_of, update_runs, inserted, audit, notify}
use crucible_iap.Policy.{Policy}
use crucible_iap.Runs.Review.{is_run}
use crucible_iap.Runs.PlanPolicies.{PlanInput, evaluate_plan_policies}
use crucible_iap.Runs.Finalize.{
  runner_event, set_status, set_failed, dependency_of, maybe_retry_dep_run, fail, has_changes,
  maybe_remediate_drift, remediate, complete, complete_plan_phase, after_policies,
}
use crucible_iap.Runs.Finalize.Effects.{find-before, evaluate-runs, settled-status}
use crucible_iap.Runs.Finalize.Retry.{schedule_retry-runs, retry_row}

module _ {C : Type 0} where
  retry-find :
      (env : Env) (org id : String) (db : Db C) {r : Run C}
      → find_run id db ≡ some r
      → find_run id (maybe_retry_dep_run env org id db) ≡ some r
  unfolding maybe_retry_dep_run
  retry-find env org id db {r} e = elim (Option-cases (dependency_of r db)) [
    | inl f ↦ rw (e, maybe_retry_dep_run) (rw f e)
    | inr (d, f) ↦ elim (Option-cases (find_stack r.stack_id db)) [
      | inl g ↦ rw (e, maybe_retry_dep_run) (rw (f, g) e)
      | inr (s, g) ↦ elim (Bool-cases (leb d.retry_count r.retry_attempt)) [
        | inl h ↦ rw (e, maybe_retry_dep_run) (rw (f, g, h) e)
        | inr h ↦
            rw (e, maybe_retry_dep_run)
              (rw (f, g, h)
                (ap (λ rs. find? (is_run id) rs) (schedule_retry-runs env org r d s db)
                  ∙ find-before id db.runs (inserted env (retry_row r d s) db ∷ []) {r = r} e))
      ]
    ]
  ]

  -- the INSERT of a remediation is refused
  remediate-refused : (env : Env) (args : RunJobArgs) (db : Db C) → remediate env args db ≡ db
  unfolding remediate
  remediate-refused env args db = refl

  remediate-find :
      (env : Env) (id : String) (args : RunJobArgs) (db : Db C) {r : Run C}
      → find_run id db ≡ some r
      → find_run id (maybe_remediate_drift env args db) ≡ some r
  unfolding maybe_remediate_drift
  remediate-find env id args db {r} e = elim (Option-cases (find_run args.run_id db)) [
    | inl f ↦ rw (f, maybe_remediate_drift) e
    | inr (x, f) ↦ elim (Option-cases (find_stack x.stack_id db)) [
      | inl g ↦ rw (f, maybe_remediate_drift) (rw g e)
      | inr (s, g) ↦ elim (Bool-cases (x.is_drift && s.auto_remediate_drift && has_changes x)) [
        | inr h ↦ rw (f, maybe_remediate_drift) (rw (g, h) e)
        | inl h ↦ rw (f, maybe_remediate_drift) (rw (g, h) (rw (remediate-refused env args db) e))
      ]
    ]
  ]

  status-found :
      (id : String) (db : Db C) {r : Run C}
      → find_run id db ≡ some r
      → status_of id db ≡ some r.status
  status-found id db {r} e = rw e refl

  -- A status that an update sets stands after any further step that still finds the row.
  after-status :
      (id : String) (f : Run C → Run C) (st : RunStatus) (db updated later : Db C) {r : Run C}
      → find_run id db ≡ some r
      → updated.runs ≡ update_where (is_run id) f db.runs
      → ((x : Run C) → (f x).status ≡ st)
      → ((x : Run C) → (f x).id ≡ x.id)
      → ((x : Run C) → find_run id updated ≡ some x → find_run id later ≡ some x)
      → status_of id later ≡ some st
  after-status id f st db updated later {r} e u h k l = elim (Option-cases (find_run id updated)) [
    | inl g ↦ absurd (ground (arith, settled-status id f st db updated {r = r} e u h k))
    | inr (x, g) ↦
        status-found id later {r = x} (l x g)
        ∙ sym (status-found id updated {r = x} g)
        ∙ settled-status id f st db updated {r = r} e u h k
  ]

  pub fail-status :
      (env : Env) (org id : String) (db : Db C) {r : Run C}
      → find_run id db ≡ some r
      → status_of id (fail env org id db) ≡ some failed
  unfolding fail
  fail-status env org id db {r} e =
      let updated =
        audit (runner_event org "run.failed" id) (update_runs (is_run id) (set_failed env) db) in
      after-status id (set_failed env) failed db updated (maybe_retry_dep_run env org id updated)
        {r = r} e refl (λ x. refl) (λ x. refl) (λ x g. retry-find env org id updated {r = x} g)

module _ {C : Type 0} ⦃F : Float64 C⦄ where
  -- After the plan phase of a run that a policy denies, the run is failed, whatever the retry of its
  -- edge does.
  pub plan_phase-denied :
      (engine : Option (List (Policy (PlanInput C)))) (env : Env) (org : String) (args : RunJobArgs)
      (db : Db C) {r : Run C}
      → find_run args.run_id db ≡ some r
      → (evaluate_plan_policies engine args db).0.denied ≡ true
      → status_of args.run_id (complete_plan_phase engine env org args db).1 ≡ some failed
  unfolding complete_plan_phase after_policies
  plan_phase-denied engine env org args db {r} e h =
      rw (h, complete_plan_phase)
        (fail-status env org args.run_id (evaluate_plan_policies engine args db).1 {r = r}
          (ap (λ rs. find? (is_run args.run_id) rs) (evaluate-runs engine args db) ∙ e))

  -- The completion of a proposed run sets it finished, whatever its status was: a cancellation that
  -- came while the container ran is overwritten.
  pub proposed-overwrites :
      (engine : Option (List (Policy (PlanInput C)))) (env : Env) (org : String) (args : RunJobArgs)
      (db : Db C) {r : Run C}
      → find_run args.run_id db ≡ some r
      → args.run_type ≡ typed proposed
      → status_of args.run_id (complete engine env org args db).1 ≡ some finished
  unfolding complete set_status
  proposed-overwrites engine env org args db {r} e h =
      let updated =
        notify (plan_complete args.run_id)
          (set_status env org args.run_id finished (some env.now) db) in
      rw (h, complete)
        (after-status args.run_id (λ x. record x { status = finished; finished_at = some env.now })
          finished db updated (maybe_remediate_drift env args updated) {r = r} e refl (λ x. refl)
          (λ x. refl) (λ x g. remediate-find env args.run_id args updated {r = x} g))
