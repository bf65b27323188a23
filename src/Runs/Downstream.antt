-- ===== src/Runs/Downstream.antt =====
-- internal/runs/finalize.go, `triggerDownstreamStacks`: after an apply, the stacks that depend on
-- this one get a run each, if they are idle, ready, and the predicate of the edge matches.
pub mod Fanout
use crucible_iap.Base.{
  ℕ, String, Bool, true, false, not, ◌&&◌, ◌||◌, Option, none, some, List, [], ◌∷◌, str_eq, ltb,
  if◌then◌else◌, any, all, keep,
}
use crucible_iap.Db.{
  RunType, tracked, proposed, destroy, Run, Stack, Dependency, RunJobArgs, typed, Db,
}
use crucible_iap.Db.Env.{Env, Float64}
use crucible_iap.Db.Query.{find_run, find_stack, insert_run, enqueue_run}
use crucible_iap.Deps.Predicate.{RunFields, Predicate, matches}
use crucible_iap.Runs.Status.{is_active, is_finished}
use crucible_iap.Runs.Budget.{or_zero}

abbrev later : Option ℕ → Option ℕ → Option ℕ
later none b = b
later (some a) none = some a
later (some a) (some b) = if ltb a b then some b else some a

-- `a > COALESCE(b, '-infinity')`
abbrev is_after : ℕ → Option ℕ → Bool
is_after a none = true
is_after a (some b) = ltb b a

-- `x IS NULL OR x > COALESCE(y, '-infinity')`
abbrev is_fresh : Option ℕ → Option ℕ → Bool
is_fresh none down = true
is_fresh (some up) down = is_after up down

abbrev applies : RunType → Bool
applies tracked = true
applies destroy = true
applies proposed = false

abbrev type_name : RunType → String
type_name tracked = "tracked"
type_name proposed = "proposed"
type_name destroy = "destroy"

abbrev pub edge_predicate : Dependency → Predicate
edge_predicate d = record {
  field = d.trigger_when_field;
  op = d.trigger_when_op;
  value = d.trigger_when_value;
}

module _ {C : Type 0} where
  -- SELECT MAX(finished_at) of the finished tracked and destroy runs of a stack
  unfoldable pub latest_finish : String → List (Run C) → Option ℕ
  latest_finish stack [] = none
  latest_finish stack (r ∷ rest) =
      let best = latest_finish stack rest in
      if str_eq r.stack_id stack && is_finished r.status && applies r.type
      then later r.finished_at best
      else best

  -- SELECT MAX(started_at) of the runs of a stack
  unfoldable pub latest_start : String → List (Run C) → Option ℕ
  latest_start stack [] = none
  latest_start stack (r ∷ rest) =
      let best = latest_start stack rest in
      if str_eq r.stack_id stack then later r.started_at best else best

  -- the NOT EXISTS: a run of the stack in one of the six statuses holds it back
  abbrev pub is_busy : String → Db C → Bool
  is_busy stack db = any (λ r. str_eq r.stack_id stack && is_active r.status) db.runs

  -- An upstream other than the one that has just finished does not hold the stack back.
  abbrev other_upstream_fresh : String → String → Db C → Dependency → Bool
  other_upstream_fresh upstream stack db d =
      not (str_eq d.downstream_id stack)
      || str_eq d.upstream_id upstream
      || is_fresh (latest_finish d.upstream_id db.runs) (latest_start stack db.runs)

  -- the COALESCE(bool_and(…), true)
  unfoldable pub is_ready : String → String → Db C → Bool
  is_ready upstream stack db = all (other_upstream_fresh upstream stack db) db.dependencies

  -- an edge of the eligibility query, with the stack that it joins
  abbrev pub is_eligible_stack : String → String → Db C → Stack C → Bool
  is_eligible_stack upstream org db s =
      not s.is_disabled
      && not s.is_locked
      && str_eq s.org_id org
      && not (is_busy s.id db)
      && is_ready upstream s.id db

  abbrev pub is_target : String → String → Db C → Dependency → Bool
  is_target upstream org db d =
      str_eq d.upstream_id upstream && (elim (find_stack d.downstream_id db) [
        | none ↦ false
        | some s ↦ is_eligible_stack upstream org db s
      ])

  unfoldable pub targets : String → String → Db C → List Dependency
  unfolding is_ready
  targets upstream org db = keep (is_target upstream org db) db.dependencies

  -- `loadRunFieldsForPredicate`; `none` is its error
  unfoldable pub load_run_fields : Float64 C → String → Db C → Option (RunFields C)
  load_run_fields F id db = elim (find_run id db) [
    | none ↦ none
    | some r ↦ some (record {
      type = type_name r.type;
      plan_add = or_zero r.plan_add;
      plan_change = or_zero r.plan_change;
      plan_destroy = or_zero r.plan_destroy;
      cost_change = elim r.cost_change [ none ↦ F.zero_cost | some c ↦ c ];
      is_drift = r.is_drift;
    })
  ]

  -- one round of the loop over the targets, for a stack that the query found
  abbrev pub trigger_stack : Env → RunJobArgs → Dependency → Stack C → Db C → Db C
  trigger_stack env args d s db =
      let inserted =
        insert_run env
          (record {
            stack_id = s.id;
            worker_pool_id = s.worker_pool_id;
            type = tracked;
            trigger = "dependency";
            is_drift = false;
            var_overrides = [];
            triggered_by_dep_id = some d.id;
            retry_attempt = 0;
          })
          db in
      elim s.worker_pool_id [
        | some pool ↦ inserted
        | none ↦
            enqueue_run
              (record {
                run_id = env.uuid db.serial;
                stack_id = s.id;
                source = s.source;
                run_type = typed tracked;
                api_url = args.api_url;
                auto_apply = s.auto_apply;
                var_overrides = [];
              })
              inserted
      ]

  -- `predicateLoadErr == nil && !t.predicate.Matches(upstreamFields)` skips
  abbrev pub fires : Float64 C → Option (RunFields C) → Dependency → Bool
  fires F none d = true
  fires F (some fields) d = matches F (edge_predicate d) fields

  unfoldable pub trigger_all :
      Float64 C → Env → RunJobArgs → Option (RunFields C) → List Dependency → Db C → Db C
  trigger_all F env args fields [] db = db
  trigger_all F env args fields (d ∷ rest) db = trigger_all F env args fields rest (
      if fires F fields d
      then (elim (find_stack d.downstream_id db) [
        | none ↦ db
        | some s ↦ trigger_stack env args d s db
      ])
      else db)

  unfoldable pub trigger_downstream_stacks : Float64 C → Env → String → RunJobArgs → Db C → Db C
  unfolding trigger_all targets load_run_fields
  trigger_downstream_stacks F env org args db =
      trigger_all F env args (load_run_fields F args.run_id db) (targets args.stack_id org db) db
