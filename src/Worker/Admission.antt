-- ===== src/Worker/Admission.antt =====
-- The jobs that the built-in worker does not hand to the runner.
use crucible_iap.Base.{
  ◌≡◌, refl, inl, inr, Bool, true, ◌||◌, Option, none, some, List, arith, Bool-cases, Option-cases,
}
use crucible_iap.Db.{failed, Run, RunJobArgs, Db}
use crucible_iap.Db.Env.{Env, Float64}
use crucible_iap.Db.Query.{find_run, find_stack, status_of}
use crucible_iap.Policy.{Policy}
use crucible_iap.Runs.PlanPolicies.{PlanInput}
use crucible_iap.Runs.Finalize.{errored}
use crucible_iap.Runs.Finalize.Endings.{fail-status}
use crucible_iap.Worker.{at_cap, work}

module _ {C : Type 0} where
  -- the job of a missing or locked stack, or of one at its cap
  abbrev pub is_refused : RunJobArgs → Db C → Bool
  is_refused args db = elim (find_stack args.stack_id db) [
    | none ↦ true
    | some s ↦ s.is_locked || at_cap s args db
  ]

module _ {C : Type 0} ⦃F : Float64 C⦄ (execute : RunJobArgs → Db C → Bool × Db C)
    (engine : Option (List (Policy (PlanInput C)))) where
  -- The run of a job whose stack is missing, locked or at its cap has failed, and the runner has no
  -- part in it: with any other runner the outcome and the tables are the same. The job itself ends
  -- with an error.
  pub work-refused :
      (other : RunJobArgs → Db C → Bool × Db C) (env : Env) (args : RunJobArgs) (db : Db C)
      (r : Run C)
      → find_run args.run_id db ≡ some r
      → is_refused args db ≡ true
      → (status_of args.run_id (work execute engine env args db).1 ≡ some failed)
        × ((work execute engine env args db).0 ≡ errored)
        × (work execute engine env args db ≡ work other engine env args db)
  unfolding work
  work-refused other env args db r e h = elim (Option-cases (find_stack args.stack_id db)) [
    | inl f ↦ rw (f, work) (fail-status env "" args.run_id db {r = r} e, refl, refl)
    | inr (s, f) ↦ elim (Bool-cases s.is_locked) [
      | inl l ↦ rw (f, work) (rw l (fail-status env s.org_id args.run_id db {r = r} e, refl, refl))
      | inr l ↦
          let cap : at_cap s args db ≡ true = ground arith in
          rw (f, work) (rw (l, cap) (fail-status env s.org_id args.run_id db {r = r} e, refl, refl))
    ]
  ]
