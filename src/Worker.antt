-- ===== src/Worker.antt =====
-- internal/worker/worker.go: the job of a run that no worker pool serves. `execute` is the runner's
-- container, together with everything that its requests change in the tables; the environment of
-- the container, its token and its log are outside of the model.
pub mod Environment
pub mod Admission
pub mod Approvals
pub mod Schedules
use crucible_iap.Base.{
  ℕ, String, Bool, true, false, not, ◌&&◌, Option, none, some, List, str_eq, leb, if◌then◌else◌,
  count_if,
}
use crucible_iap.Db.{preparing, planning, Run, Stack, RunJobArgs, Notice, run_finished, Db}
use crucible_iap.Db.Env.{Env, Float64}
use crucible_iap.Db.Query.{find_stack, notify}
use crucible_iap.Policy.{Policy}
use crucible_iap.Runs.Status.{is_terminal}
use crucible_iap.Runs.PlanPolicies.{PlanInput}
use crucible_iap.Runs.Finalize.{Outcome, errored, set_status, fail, complete}

module _ {C : Type 0} where
  -- SELECT COUNT(*) of the other runs of the stack that have not ended
  abbrev pub active_runs : RunJobArgs → Db C → ℕ
  active_runs args db =
      count_if
        (λ r.
          str_eq r.stack_id args.stack_id
          && not (str_eq r.id args.run_id)
          && not (is_terminal r.status))
        db.runs

  abbrev pub at_cap : Stack C → RunJobArgs → Db C → Bool
  at_cap s args db = elim s.max_concurrent_runs [
    | none ↦ false
    | some cap ↦ leb cap (active_runs args db)
  ]

  -- the tables that the runner starts from
  unfoldable pub begin : Env → String → RunJobArgs → Db C → Db C
  begin env org args db =
      set_status env org args.run_id planning none
        (set_status env org args.run_id preparing none db)

module _ {C : Type 0} ⦃F : Float64 C⦄ where
  -- `Work` after the runner has returned, with whether it succeeded
  unfoldable pub after_execution :
      Option (List (Policy (PlanInput C)))
      → Env
      → String
      → RunJobArgs
      → Bool × Db C
      → Outcome × Db C
  after_execution engine env org args (false, db) =
      (errored, fail env org args.run_id (notify (run_finished args.run_id false) db))
  after_execution engine env org args (true, db) = complete engine env org args db

  -- `Work`; a method that fails a run returns the cause, with which the job ends
  unfoldable pub work :
      (RunJobArgs → Db C → Bool × Db C)
      → Option (List (Policy (PlanInput C)))
      → Env
      → RunJobArgs
      → Db C
      → Outcome × Db C
  unfolding after_execution begin
  work execute engine env args db = elim (find_stack args.stack_id db) [
    | none ↦ (errored, fail env "" args.run_id db)
    | some s ↦
        if s.is_locked
        then (errored, fail env s.org_id args.run_id db)
        else if at_cap s args db
        then (errored, fail env s.org_id args.run_id db)
        else after_execution engine env s.org_id args (execute args (begin env s.org_id args db))
  ]
