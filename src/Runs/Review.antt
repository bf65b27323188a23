-- ===== src/Runs/Review.antt =====
-- internal/runs/handler.go: the decisions that a user takes on a run. Each handler returns its
-- response and the tables after it. A service account has the user id sa:<id>, which is no UUID: the
-- statements that would write it to approved_by or approver_id are refused.
pub mod Effects
use crucible_iap.Base.{
  ℕ, String, Bool, true, false, not, ◌&&◌, Option, none, some, List, [], ◌∷◌, ◌++◌, str_eq, ltb,
  if◌then◌else◌, length, get_elem?, find?,
}
use crucible_iap.Db.{
  unconfirmed, pending_approval, confirmed, discarded, canceled, Run, ChainStep, RunJobArgs, apply,
  Event, Notice, chain_step_ready, Db,
}
use crucible_iap.Db.Env.{Env, Caller, Result, ok, http_error}
use crucible_iap.Db.Query.{
  find_run, find_stack, update_runs, audit, notify, enqueue_run, source_of, pool_of,
}
use crucible_iap.Access.{may_act_on_run}
use crucible_iap.Runs.Status.{
  is_unconfirmed, is_pending_approval, is_active, awaits_decision, is_destroy,
}
use crucible_iap.Runs.Chain.{
  record_chain_approval, next_step, no_chain, not_eligible, ChainResult, load_stack_chain,
  LoadedChain, chain, decode_error,
}

-- audit.Event with the actor types that the handlers use
abbrev pub user_event : String → String → String → Event
user_event user action id = record {
  actor_id = user;
  actor_type = "user";
  action = action;
  resource_id = id;
  org_id = "";
}

-- The caller is a service account: `sa:` and its id as the user id.
abbrev pub is_service : Caller → Bool
is_service c = not (str_eq c.sa_role "")

-- `approveWithChain` for a service account: the INSERT of its approval is refused, and so is the
-- UPDATE of the run once the chain is satisfied.
unfoldable pub service_answer : ChainResult → Result (Unit {0})
service_answer (not_eligible i) = http_error 403
service_answer no_chain = http_error 500
service_answer (next_step i) = http_error 500

module _ {C : Type 0} where
  -- The rows that `WHERE id = $1 AND status …` takes.
  abbrev pub is_run : String → Run C → Bool
  is_run id r = str_eq r.id id

  -- The apply job of a run, for a stack that no worker pool serves.
  abbrev pub enqueue_apply : String → String → Run C → Db C → Db C
  enqueue_apply url stack_id r db =
      let stack = find_stack stack_id db in
      elim (pool_of stack) [
        | some pool ↦ db
        | none ↦
            enqueue_run
              (record {
                run_id = r.id;
                stack_id = stack_id;
                source = source_of stack;
                run_type = apply;
                api_url = url;
                auto_apply = false;
                var_overrides = r.var_overrides;
              })
              db
      ]

  abbrev pub set_confirmed : Env → Option String → Run C → Run C
  set_confirmed env user r = record r {
    status = confirmed;
    approved_by = user;
    approved_at = some env.now;
  }

  -- `Confirm`, once the statement has found its row
  unfoldable pub confirm_found :
      Env → Caller → String → Option (Run C) → Db C → Result (Unit {0}) × Db C
  confirm_found env c id none db = (http_error 409, db)
  confirm_found env c id (some r) db =
      let updated =
        update_runs (λ x. is_run id x && is_unconfirmed x.status)
          (set_confirmed env (some c.user_id)) db in
      (
        ok tt,
        audit (user_event c.user_id "run.confirmed" id)
            (enqueue_apply env.api_url r.stack_id r updated),
      )

  -- `Confirm`
  unfoldable pub confirm : Env → Caller → String → Db C → Result (Unit {0}) × Db C
  unfolding confirm_found
  confirm env c id db =
      if may_act_on_run c id db
      then (if is_service c
          then (http_error 409, db)
          else confirm_found env c id (find? (λ x. is_run id x && is_unconfirmed x.status) db.runs)
              db)
      else (http_error 403, db)

  abbrev pub set_approved : Env → String → Run C → Run C
  set_approved env user r = record r {
    status = unconfirmed;
    approved_by = some user;
    approved_at = some env.now;
  }

  -- `Approve` after its statement: an auto-apply stack goes on to the apply phase.
  abbrev pub auto_applies : Run C → Db C → Bool
  auto_applies r db = elim (find_stack r.stack_id db) [
    | none ↦ false
    | some s ↦ s.auto_apply && not (is_destroy r.type)
  ]

  unfoldable pub approve_found :
      Env → Caller → String → Option (Run C) → Db C → Result (Unit {0}) × Db C
  approve_found env c id none db = (http_error 409, db)
  approve_found env c id (some r) db =
      let approved =
        update_runs (λ x. is_run id x && is_pending_approval x.status) (set_approved env c.user_id)
          db in
      let applied =
        enqueue_apply env.api_url r.stack_id r
          (update_runs (is_run id) (λ x. record x { status = confirmed }) approved) in
      (
        ok tt,
        audit (user_event c.user_id "run.approved" id)
            (if auto_applies r db then applied else approved),
      )

  -- `approveWithChain` after `recordChainApproval`
  unfoldable pub approve_step_done :
      Env → Caller → String → List ChainStep → ChainResult × Db C → Result (Unit {0}) × Db C
  approve_step_done env c id steps (no_chain, db) = (http_error 500, db)
  approve_step_done env c id steps (not_eligible i, db) = (http_error 403, db)
  approve_step_done env c id steps (next_step next, db) =
      let stepped = audit (user_event c.user_id "run.chain_step_approved" id) db in
      if ltb next (length steps)
      then (
        ok tt,
        elim (get_elem? steps next) [
          | none ↦ stepped
          | some s ↦ notify (chain_step_ready id next s) stepped
        ],
      )
      else (
        ok tt,
        audit (user_event c.user_id "run.approved" id) (
            update_runs (λ x. is_run id x && is_pending_approval x.status)
              (set_approved env c.user_id) stepped),
      )

  -- `approveWithChain`
  unfoldable pub approve_with_chain :
      Env → Caller → String → List ChainStep → Db C → Result (Unit {0}) × Db C
  unfolding approve_step_done
  approve_with_chain env c id steps db = elim (find_run id db) [
    | none ↦ (http_error 404, db)
    | some r ↦
        if not (is_pending_approval r.status)
        then (http_error 409, db)
        else (if is_service c
            then (service_answer (record_chain_approval id c.user_id steps db).0, db)
            else approve_step_done env c id steps (record_chain_approval id c.user_id steps db))
  ]

  -- `Approve`, by the chain of the run's stack
  unfoldable pub approve_by : Env → Caller → String → LoadedChain → Db C → Result (Unit {0}) × Db C
  approve_by env c id decode_error db = (http_error 500, db)
  approve_by env c id (chain []) db =
      if is_service c
      then (http_error 409, db)
      else approve_found env c id (find? (λ x. is_run id x && is_pending_approval x.status) db.runs)
          db
  approve_by env c id (chain (s ∷ rest)) db = approve_with_chain env c id (s ∷ rest) db

  -- `Approve`
  unfoldable pub approve : Env → Caller → String → Db C → Result (Unit {0}) × Db C
  unfolding approve_by approve_found
  approve env c id db =
      if may_act_on_run c id db
      then (elim (find_run id db) [
        | none ↦ (http_error 404, db)
        | some r ↦ approve_by env c id (load_stack_chain r.stack_id db) db
      ])
      else (http_error 403, db)
