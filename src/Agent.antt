-- ===== src/Agent.antt =====
-- internal/agent/handler.go: the endpoints that an external worker agent polls. The secrets, the
-- tokens and the log upload are left out of the job that a claim returns.
pub mod Phases
use crucible_iap.Base.{
  ℕ, String, Bool, true, false, not, ◌&&◌, Option, none, some, List, [], ◌∷◌, str_eq, ltb,
  if◌then◌else◌, find?, is_some,
}
use crucible_iap.Db.{
  preparing, RunType, tracked, proposed, destroy, Run, Stack, JobSource, JobType, typed, apply,
  RunJobArgs, Db,
}
use crucible_iap.Db.Env.{Env, Float64, Result, ok, http_error}
use crucible_iap.Db.Query.{find_run, find_stack, update_runs}
use crucible_iap.Policy.{Policy}
use crucible_iap.Runs.Status.{is_claimable, is_terminal, is_confirmed, is_preparing}
use crucible_iap.Runs.Review.{is_run}
use crucible_iap.Runs.PlanPolicies.{PlanInput}
use crucible_iap.Runs.Finalize.{started, fail, complete}

pub record JobSpec : Type 0 where
  pub run_id : String
  pub stack_id : String
  pub source : JobSource
  pub run_type : JobType
  pub auto_apply : Bool
  pub var_overrides : List String
  pub api_url : String

abbrev pub in_pool : String → Option String → Bool
in_pool pool none = false
in_pool pool (some p) = str_eq p pool

module _ {C : Type 0} where
  -- the WHERE clause of the inner SELECT
  abbrev pub is_waiting : String → Run C → Bool
  is_waiting pool r =
      in_pool pool r.worker_pool_id && is_claimable r.status && not (is_terminal r.status)

  abbrev older : Run C → Option (Run C) → Option (Run C)
  older r none = some r
  older r (some b) = if ltb b.queued_at r.queued_at then some b else some r

  -- ORDER BY queued_at ASC LIMIT 1; the first row wins a tie
  unfoldable pub oldest_waiting : String → List (Run C) → Option (Run C)
  oldest_waiting pool [] = none
  oldest_waiting pool (r ∷ rest) =
      let best = oldest_waiting pool rest in if is_waiting pool r then older r best else best

  abbrev pub claimed : Env → Run C → Run C
  claimed env r = record r { status = preparing; started_at = started env.now r.started_at }

  -- `if cr.status == "confirmed" { runType = "apply" }`
  abbrev effective_type : Run C → JobType
  effective_type row = if is_confirmed row.status then apply else typed row.type

  -- the part of `Claim` after the UPDATE, with the row that RETURNING gives: the updated one
  abbrev claim_row : Env → Run C → Db C → Result (Option JobSpec) × Db C
  claim_row env row db = elim (find_stack row.stack_id db) [
    | none ↦ (http_error 500, db)
    | some s ↦ (
      ok (
          some (record {
            run_id = row.id;
            stack_id = row.stack_id;
            source = s.source;
            run_type = effective_type row;
            auto_apply = s.auto_apply;
            var_overrides = row.var_overrides;
            api_url = env.api_url;
          })),
      db,
    )
  ]

  -- `Claim`; `ok none` is the 204 of an agent without work
  unfoldable pub claim : Env → String → Db C → Result (Option JobSpec) × Db C
  claim env pool db = elim (oldest_waiting pool db.runs) [
    | none ↦ (ok none, db)
    | some r ↦ claim_row env (claimed env r) (update_runs (is_run r.id) (claimed env) db)
  ]

  -- the row that `Finish` looks for
  abbrev pub is_finishing : String → String → Run C → Bool
  is_finishing pool id r = is_run id r && in_pool pool r.worker_pool_id && is_preparing r.status

  -- `effectiveRunType`: an approved run of type tracked or destroy has been applied
  abbrev pub finished_type : Run C → JobType
  finished_type r =
      if is_some r.approved_at
      then (elim r.type [ proposed ↦ typed proposed | _ ↦ apply ])
      else typed r.type

  abbrev pub finish_args : Env → Run C → Stack C → RunJobArgs
  finish_args env r s = record {
    run_id = r.id;
    stack_id = r.stack_id;
    source = s.source;
    run_type = finished_type r;
    api_url = env.api_url;
    auto_apply = s.auto_apply;
    var_overrides = r.var_overrides;
  }

module _ {C : Type 0} ⦃F : Float64 C⦄ where
  -- the part of `Finish` with the run and its stack
  abbrev finish_row :
      Option (List (Policy (PlanInput C)))
      → Env
      → Bool
      → Run C
      → Stack C
      → Db C
      → Result (Unit {0}) × Db C
  finish_row engine env success r s db =
      if not success
      then (ok tt, fail env s.org_id r.id db)
      else (ok tt, (complete engine env s.org_id (finish_args env r s) db).1)

  -- `Finish`
  unfoldable pub finish :
      Option (List (Policy (PlanInput C)))
      → Env
      → String
      → String
      → Bool
      → Db C
      → Result (Unit {0}) × Db C
  finish engine env pool id success db = elim (find? (is_finishing pool id) db.runs) [
    | none ↦ (http_error 404, db)
    | some r ↦ elim (find_stack r.stack_id db) [
      | none ↦ (http_error 404, db)
      | some s ↦ finish_row engine env success r s db
    ]
  ]
