-- ===== src/Runs/Downstream/Fanout.antt =====
-- Which stacks a finished apply triggers, and what it adds to the table of runs.
use crucible_iap.Base.{
  ◌≤◌, ◌+◌, suc, String, ◌≡◌, true, false, Option, some, List, [], ◌∷◌, inl, inr, arith, eq_iff,
  Bool-cases, Option-cases, length, All, keep, length-append,
}
use crucible_iap.Db.{tracked, Stack, Dependency, RunJobArgs, Db}
use crucible_iap.Db.Env.{Env, Float64}
use crucible_iap.Db.Query.{NewRun, inserted, find_stack}
use crucible_iap.Deps.Predicate.{RunFields}
use crucible_iap.Runs.Downstream.{
  is_busy, is_target, targets, load_run_fields, fires, trigger_stack, trigger_all,
  trigger_downstream_stacks,
}

module _ {C : Type 0} where
  -- the stack of an edge that may be triggered
  abbrev pub Triggered : String → String → Db C → Dependency → Type 0
  Triggered upstream org db d =
      (d.upstream_id ≡ upstream)
      × ((s : Stack C) × (find_stack d.downstream_id db ≡ some s)
          × (s.org_id ≡ org)
          × (s.is_disabled ≡ false)
          × (s.is_locked ≡ false)
          × (is_busy s.id db ≡ false))

  target-Triggered :
      (upstream org : String) (db : Db C) (d : Dependency)
      → is_target upstream org db d ≡ true
      → Triggered upstream org db d
  target-Triggered upstream org db d h = elim (Option-cases (find_stack d.downstream_id db)) [
    | inl e ↦ absurd (ground arith)
    | inr (s, e) ↦ (
      ground (arith, eq_iff d.upstream_id upstream),
      (s, e, ground (arith, eq_iff s.org_id org), ground arith, ground arith, ground arith),
    )
  ]

  keep-All :
      (upstream org : String) (db : Db C) (ds : List Dependency)
      → All (Triggered upstream org db) (keep (is_target upstream org db) ds)
  keep-All upstream org db [] = tt
  keep-All upstream org db (d ∷ ds) = elim (Bool-cases (is_target upstream org db d)) [
    | inl e ↦ rw e (target-Triggered upstream org db d e, keep-All upstream org db ds)
    | inr e ↦ rw e (keep-All upstream org db ds)
  ]

  -- Every edge that the eligibility query returns leaves the stack that was applied and leads to a
  -- stack of the organisation that is neither disabled nor locked and has no active run.
  pub targets-Triggered :
      (upstream org : String) (db : Db C)
      → All (Triggered upstream org db) (targets upstream org db)
  unfolding targets
  targets-Triggered upstream org db = keep-All upstream org db db.dependencies

  abbrev triggered : Dependency → Stack C → NewRun
  triggered d s = record {
    stack_id = s.id;
    worker_pool_id = s.worker_pool_id;
    type = tracked;
    trigger = "dependency";
    is_drift = false;
    var_overrides = [];
    triggered_by_dep_id = some d.id;
    retry_attempt = 0;
  }

  trigger_stack-length :
      (env : Env) (args : RunJobArgs) (d : Dependency) (s : Stack C) (db : Db C)
      → length (trigger_stack env args d s db).runs ≡ suc (length db.runs)
  trigger_stack-length env args d s db = elim (Option-cases s.worker_pool_id) [
    | inl g ↦ ground (arith, length-append db.runs (inserted env (triggered d s) db ∷ []))
    | inr (p, g) ↦ ground (arith, length-append db.runs (inserted env (triggered d s) db ∷ []))
  ]

  trigger_all-length :
      (F : Float64 C) (env : Env) (args : RunJobArgs) (fields : Option (RunFields C))
      (ds : List Dependency) (db : Db C)
      → length (trigger_all F env args fields ds db).runs ≤ length db.runs + length ds
  unfolding trigger_all
  trigger_all-length F env args fields [] db = omega arith
  trigger_all-length F env args fields (d ∷ ds) db = elim (Bool-cases (fires F fields d)) [
    | inr e ↦ rw (e, trigger_all) (omega (arith, trigger_all-length F env args fields ds db))
    | inl e ↦ elim (Option-cases (find_stack d.downstream_id db)) [
      | inl f ↦
          rw (e, trigger_all) (rw f (omega (arith, trigger_all-length F env args fields ds db)))
      | inr (s, f) ↦
          rw (e, trigger_all)
            (rw f (
              omega (
                arith,
                trigger_all-length F env args fields ds (trigger_stack env args d s db),
                trigger_stack-length env args d s db,
              )))
    ]
  ]

  -- A finished apply adds at most one run for each edge that the eligibility query returns.
  pub fanout-bounded :
      (F : Float64 C) (env : Env) (org : String) (args : RunJobArgs) (db : Db C)
      → length (trigger_downstream_stacks F env org args db).runs
        ≤ length db.runs + length (targets args.stack_id org db)
  unfolding trigger_downstream_stacks
  fanout-bounded F env org args db =
      trigger_all-length F env args (load_run_fields F args.run_id db)
        (targets args.stack_id org db) db
