-- ===== src/Webhooks.antt =====
-- internal/webhooks: what becomes of an event after its payload was verified and parsed. `compile` is gobwas/glob, `to_lower` and `trim_space` are functions of
-- Go's strings.
pub mod Events
pub mod Gitlab
pub mod Forges
pub mod Verify
pub mod Deliveries
pub mod Tags
pub mod Previews
pub mod Receive
pub mod Gates
use crucible_iap.Base.{
  ℕ, String, Bool, true, false, not, ◌&&◌, ◌||◌, Option, none, some, List, [], ◌∷◌, ◌++◌, str_eq,
  str_append, if◌then◌else◌, any, find?,
}
use crucible_iap.Db.{RunType, tracked, proposed, destroy, typed, Stack, RunJobArgs, Event, Db}
use crucible_iap.Db.Env.{Env, Result, ok, http_error}
use crucible_iap.Db.Query.{find_stack, NewRun, insert_run, enqueue_run, audit}
use crucible_iap.Quotas.{QuotaCheck, under, exceeded, check_concurrent_quota}
use crucible_iap.Webhooks.Events.{WebhookEvent}
use crucible_iap.Webhooks.Deliveries.{
  Filters, Hook, Arrival, Inbox, record_delivery, skip, find_hook,
}
use crucible_iap.Webhooks.Tags.{handle_tag_push}
use crucible_iap.Webhooks.Previews.{maybe_spawn_preview, handle_pr_close}

abbrev pub is_empty : List String → Bool
is_empty [] = true
is_empty (x ∷ xs) = false

module _ (compile : String → Option (String → Bool)) where
  -- the patterns that compile
  abbrev pub compiled : List String → List (String → Bool)
  compiled [] = []
  compiled (g ∷ globs) =
      let rest = compiled globs in
      if str_eq g "" then rest else elim (compile g) [ none ↦ rest | some matches ↦ matches ∷ rest ]

  abbrev pub matches_any : List (String → Bool) → List String → Bool
  matches_any [] paths = true
  matches_any (m ∷ ms) paths = any (λ p. any (λ c. c p) (m ∷ ms)) paths

  -- `pathsMatchAnyGlob`
  unfoldable pub paths_match_any_glob : List String → List String → Bool
  paths_match_any_glob globs paths =
      if is_empty globs || is_empty paths then true else matches_any (compiled globs) paths

-- What the skip filters read of a text.
pub record Texts : Type 0 where
  pub contains : String → String → Bool
  pub to_lower : String → String
  pub trim_space : String → String

module _ (T : Texts) where
  abbrev pub skip_message : String → List String → Option String
  skip_message message [] = none
  skip_message message (pat ∷ pats) =
      let rest = skip_message message pats in
      if not (str_eq pat "") && T.contains message pat
      then some (str_append "skip_commit_message:" pat)
      else rest

  abbrev pub skip_actor : String → List String → Option String
  skip_actor actor [] = none
  skip_actor actor (a ∷ actors) =
      let rest = skip_actor actor actors in
      if not (str_eq a "") && str_eq (T.to_lower (T.trim_space a)) (T.to_lower actor)
      then some (str_append "skip_actor:" a)
      else rest

  abbrev filter_actor : List String → String → Option String
  filter_actor actors actor = if str_eq actor "" then none else skip_actor actor actors

  -- `pushPolicySkipReason`; none is the empty reason
  unfoldable pub push_policy_skip_reason :
      List String → List String → String → String → Option String
  push_policy_skip_reason messages actors message actor =
      elim (if str_eq message "" then none else skip_message message messages) [
        | some reason ↦ some reason
        | none ↦ filter_actor actors actor
      ]

abbrev is_tracked : Option RunType → Bool
is_tracked (some tracked) = true
is_tracked (some proposed) = false
is_tracked (some destroy) = false
is_tracked none = false

abbrev pub quota_reason : QuotaCheck → Option String
quota_reason under = none
quota_reason (exceeded limit active) = some "org_quota_exceeded"

module _ (compile : String → Option (String → Bool)) (T : Texts) {C : Type 0} where
  -- the reason why an event is skipped, in the order of the tests
  unfoldable pub skip_reason : Filters → WebhookEvent → Stack C → Db C → Option String
  skip_reason f e s db =
      if is_tracked e.run_type && not (str_eq e.branch s.source.repo_branch)
      then some "branch_mismatch"
      else if not (paths_match_any_glob compile f.trigger_paths e.changed_files)
      then some "path_filter_no_match"
      else (elim (push_policy_skip_reason T f.skip_commit_message_patterns f.skip_actors
          e.commit_message e.actor) [
            | some reason ↦ some reason
            | none ↦ quota_reason (check_concurrent_quota s.org_id db)
          ])

module _ {C : Type 0} where
  abbrev created_event : Stack C → String → Event
  created_event s id = record {
    actor_id = "";
    actor_type = "system";
    action = "run.created";
    resource_id = id;
    org_id = s.org_id;
  }

  -- the job of an event, `AutoApply` unset
  abbrev pub event_job : Env → RunType → Stack C → String → RunJobArgs
  event_job env t s id = record {
    run_id = id;
    stack_id = s.id;
    source = s.source;
    run_type = typed t;
    api_url = env.api_url;
    auto_apply = false;
    var_overrides = [];
  }

  -- `maybeEnqueueRun`
  abbrev pub maybe_enqueue_run : Option String → RunJobArgs → Db C → Db C
  maybe_enqueue_run none args db = enqueue_run args db
  maybe_enqueue_run (some pool) args db = db

  abbrev pub event_run : WebhookEvent → RunType → Stack C → NewRun
  event_run e t s = record {
    stack_id = s.id;
    worker_pool_id = s.worker_pool_id;
    type = t;
    trigger = e.trigger;
    is_drift = false;
    var_overrides = [];
    triggered_by_dep_id = none;
    retry_attempt = 0;
  }

  -- the run of an event that no test skips
  abbrev pub trigger_run : Env → WebhookEvent → RunType → Stack C → Db C → Db C
  trigger_run env e t s db =
      let id = env.uuid db.serial in
      audit (created_event s id) (
        maybe_enqueue_run s.worker_pool_id (event_job env t s id)
          (insert_run env (event_run e t s) db))

module _ {C B : Type 0} where
  abbrev pub triggered : Env → Stack C → Arrival B → WebhookEvent → RunType → Inbox C B → Inbox C B
  triggered env s a e t st =
      record_delivery env s.id a "triggered" "" (some (env.uuid st.db.serial))
        (record st { db = trigger_run env e t s st.db })

  -- the skipped delivery, or the triggered one with its run and the preview stack of the pull
  -- request; an event without a run type fails the INSERT; the queue takes the job
  unfoldable pub settle_event :
      Env
      → (ℕ → String)
      → String
      → Stack C
      → Hook
      → Arrival B
      → WebhookEvent
      → Option String
      → Inbox C B
      → Result (Unit {0}) × Inbox C B
  settle_event env decimal secret s h a e (some reason) st = (
    if str_eq reason "org_quota_exceeded" then http_error 429 else ok tt,
    (skip env s.id a reason st).1,
  )
  settle_event env decimal secret s h a e none st = elim e.run_type [
    | none ↦ (http_error 500, st)
    | some t ↦ (ok tt, maybe_spawn_preview env decimal e s h secret (triggered env s a e t st))
  ]

module _ (compile : String → Option (String → Bool)) (T : Texts) (decimal : ℕ → String)
    {C B : Type 0} where
  -- the tests of `dispatchEvent`, with the row of the stack; `secret` is drawn for a preview stack
  unfoldable pub dispatch_on :
      Env
      → String
      → Stack C
      → Hook
      → Arrival B
      → WebhookEvent
      → Inbox C B
      → Result (Unit {0}) × Inbox C B
  dispatch_on env secret s h a e st =
      if s.is_disabled
      then skip env s.id a "stack_disabled" st
      else if not (str_eq e.tag_name "")
      then handle_tag_push env s.id a e h st
      else if e.pr_closed
      then handle_pr_close env s a e st
      else settle_event env decimal secret s h a e (skip_reason compile T h.filters e s st.db) st

  unfoldable pub dispatch_row :
      Env
      → String
      → Option (Stack C)
      → Option Hook
      → Arrival B
      → WebhookEvent
      → Inbox C B
      → Result (Unit {0}) × Inbox C B
  dispatch_row env secret none h a e st = (http_error 404, st)
  dispatch_row env secret (some s) none a e st = (http_error 404, st)
  dispatch_row env secret (some s) (some h) a e st = dispatch_on env secret s h a e st

  -- `dispatchEvent`; a row of stacks is there in both of its parts
  unfoldable pub dispatch_event :
      Env → String → String → Arrival B → WebhookEvent → Inbox C B → Result (Unit {0}) × Inbox C B
  unfolding dispatch_row
  dispatch_event env secret stack_id a e st =
      dispatch_row env secret (find_stack stack_id st.db) (find_hook stack_id st) a e st
