-- ===== src/Tests/Workers.antt =====
-- The built-in worker and its passes at concrete inputs.
use crucible_iap.Base.{ℕ, ◌+◌, ◌≡◌, refl, Bool, true, false, none, some, [], ◌∷◌, any, count_if}
use crucible_iap.Db.{unconfirmed, failed, tracked, typed, null, RunJobArgs, Db}
use crucible_iap.Db.Query.{status_of}
use crucible_iap.Runs.Finalize.{errored}
use crucible_iap.Worker.Admission.{work-refused}
use crucible_iap.Worker.{work}
use crucible_iap.Worker.Approvals.Passes.{
  alerts, unescalated, escalation_passes, escalation_passes-moves,
}
use crucible_iap.Worker.Schedules.{ttl_is_due, run_ttl_destroys}
use crucible_iap.Worker.Schedules.Firing.{is_job_of, run_ttl_destroys-once}
use crucible_iap.Worker.Environment.{Sources}
use crucible_iap.Tests.Fixtures.{nat_cost, env, run, stack, db_of, job}

abbrev succeeds : RunJobArgs → Db ℕ → Bool × Db ℕ
succeeds args db = (true, db)

abbrev breaks : RunJobArgs → Db ℕ → Bool × Db ℕ
breaks args db = (false, db)

abbrev locked_stack : Db ℕ
locked_stack =
    db_of (run "r1" unconfirmed tracked none ∷ []) (record (stack null none) { is_locked = true })

work-refused_example :
    (status_of "r1" (work ⦃F = nat_cost⦄ succeeds none env (job (typed tracked)) locked_stack).1
      ≡ some failed)
    × ((work ⦃F = nat_cost⦄ succeeds none env (job (typed tracked)) locked_stack).0 ≡ errored)
    × (work ⦃F = nat_cost⦄ succeeds none env (job (typed tracked)) locked_stack
        ≡ work ⦃F = nat_cost⦄ breaks none env (job (typed tracked)) locked_stack)
work-refused_example =
    work-refused ⦃F = nat_cost⦄ succeeds none breaks env (job (typed tracked)) locked_stack
      (run "r1" unconfirmed tracked none) refl refl

abbrev waiting : Db ℕ
waiting =
    db_of (run "r1" unconfirmed tracked none ∷ [])
      (record (stack null none) { escalation_after_minutes = some 1 })

escalation_passes-moves_example :
    alerts "r1" (escalation_passes (env ∷ env ∷ []) waiting)
      + unescalated "r1" (escalation_passes (env ∷ env ∷ []) waiting)
    ≡ 1
escalation_passes-moves_example = escalation_passes-moves (env ∷ env ∷ []) "r1" waiting

abbrev overdue : Db ℕ
overdue = db_of [] (record (stack null none) { scheduled_destroy_at = some 10 })

run_ttl_destroys-once_example :
    (any (ttl_is_due env) (run_ttl_destroys env overdue).stacks ≡ false)
    × (count_if (is_job_of "net") (run_ttl_destroys env overdue).jobs ≡ 1)
run_ttl_destroys-once_example = run_ttl_destroys-once env "net" overdue

-- REGION in a variable set and in the stack, with the settings of a scan
abbrev sources : Sources
sources = record {
  store = none;
  variable_sets = some (("REGION", "eu") ∷ []);
  remote_state = [];
  stack_vars = some (("REGION", "us") ∷ []);
  hooks = none;
  infracost = none;
  scan = some ("trivy", "high");
}
