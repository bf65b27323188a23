-- ===== src/Runs/Chatops.antt =====
-- internal/runs/handler.go, `ChatOpsAction`: a decision by a signed link. The check of the token's
-- signature and expiry (internal/chatops) comes in as its answer.
pub mod Bypass
use crucible_iap.Base.{
  String, Bool, false, ◌&&◌, Option, none, some, str_eq, str_append, if◌then◌else◌, any, [],
}
use crucible_iap.Db.{unconfirmed, confirmed, discarded, Run, apply, Event, Db}
use crucible_iap.Db.Env.{Env, Result, ok, http_error}
use crucible_iap.Db.Query.{find_run, find_stack, update_runs, audit, enqueue_run}
use crucible_iap.Runs.Status.{is_unconfirmed, is_pending_approval, awaits_decision}
use crucible_iap.Runs.Review.{is_run}

pub data ChatAction : Type 0 where
  confirm_run approve_run discard_run : ChatAction

-- the `:action` of the route, checked against `validActions`
unfoldable pub chat_action : String → Option ChatAction
chat_action s =
    if str_eq s "confirm"
    then some confirm_run
    else if str_eq s "approve"
    then some approve_run
    else if str_eq s "discard"
    then some discard_run
    else none

abbrev chat_event : String → String → Event
chat_event action id = record {
  actor_id = "";
  actor_type = "chatops";
  action = str_append "run." (str_append action "d");
  resource_id = id;
  org_id = "";
}

module _ {C : Type 0} where
  -- the status that an action asks for
  abbrev pub allows : ChatAction → Run C → Bool
  allows confirm_run r = is_unconfirmed r.status
  allows approve_run r = is_pending_approval r.status
  allows discard_run r = awaits_decision r.status

  abbrev pub decide : Env → ChatAction → Run C → Run C
  decide env confirm_run r = record r { status = confirmed; approved_at = some env.now }
  decide env approve_run r = record r { status = unconfirmed; approved_at = some env.now }
  decide env discard_run r = record r { status = discarded; finished_at = some env.now }

  -- The apply job of a confirmed run: with no variable overrides, and from the base URL.
  abbrev pub enqueue_confirmed : Env → String → Db C → Db C
  enqueue_confirmed env id db = elim (find_run id db) [
    | none ↦ db
    | some r ↦ elim (find_stack r.stack_id db) [
      | none ↦ db
      | some s ↦ elim s.worker_pool_id [
        | some pool ↦ db
        | none ↦
            enqueue_run
              (record {
                run_id = id;
                stack_id = s.id;
                source = s.source;
                run_type = apply;
                api_url = env.base_url;
                auto_apply = false;
                var_overrides = [];
              })
              db
      ]
    ]
  ]

  abbrev pub follow_up : Env → ChatAction → String → Db C → Db C
  follow_up env confirm_run id db = enqueue_confirmed env id db
  follow_up env approve_run id db = db
  follow_up env discard_run id db = db

  unfoldable pub perform : Env → String → String → ChatAction → Db C → Result (Unit {0}) × Db C
  perform env id name act db =
      if any (λ x. is_run id x && allows act x) db.runs
      then (
        ok tt,
        audit (chat_event name id) (
            follow_up env act id
              (update_runs (λ x. is_run id x && allows act x) (decide env act) db)),
      )
      else (http_error 409, db)

  unfoldable pub chatops_action : Env → Bool → String → String → Db C → Result (Unit {0}) × Db C
  unfolding perform chat_action
  chatops_action env valid_token id name db = elim (chat_action name) [
    | none ↦ (http_error 400, db)
    | some act ↦ if valid_token then perform env id name act db else (http_error 403, db)
  ]
