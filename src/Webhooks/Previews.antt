-- ===== src/Webhooks/Previews.antt =====
-- internal/webhooks/handler.go: the preview stacks of pull requests, `handlePRClose` and
-- `maybeSpawnPreview`. `decimal` is %d of fmt.Sprintf.
pub mod Growth
pub mod Collision
pub mod Lifecycle
use crucible_iap.Base.{
  ℕ, suc, String, Bool, true, false, not, ◌&&◌, ◌||◌, Option, none, some, List, [], ◌∷◌, ◌++◌,
  str_eq, str_append, ◌==◌, if◌then◌else◌, find?, any, update_where,
}
use crucible_iap.Base.Map.{holds}
use crucible_iap.Db.{
  RunType, tracked, proposed, destroy, typed, JobSource, Stack, null, RunJobArgs, Db,
}
use crucible_iap.Db.Env.{Env, Result, ok, http_error}
use crucible_iap.Db.Query.{NewRun, find_stack, insert_run, enqueue_run}
use crucible_iap.Webhooks.Events.{WebhookEvent}
use crucible_iap.Webhooks.Deliveries.{
  Filters, Hook, Template, Arrival, Inbox, record_delivery, skip,
}

abbrev pub pr_run : String → RunType → NewRun
pr_run stack_id type = record {
  stack_id = stack_id;
  worker_pool_id = none;
  type = type;
  trigger = "pull_request";
  is_drift = false;
  var_overrides = [];
  triggered_by_dep_id = none;
  retry_attempt = 0;
}

-- the preview of a pull request of a stack
abbrev pub is_preview_of : String → ℕ → Hook → Bool
is_preview_of source number h =
    holds (λ s. str_eq s source) h.preview_source_stack_id
    && holds (λ n. n == number) h.preview_pr_number

abbrev pub is_proposed : Option RunType → Bool
is_proposed (some proposed) = true
is_proposed (some tracked) = false
is_proposed (some destroy) = false
is_proposed none = false

module _ {C : Type 0} where
  -- UPDATE stacks SET delete_after_destroy = true WHERE id = $1
  abbrev pub mark_for_deletion : String → Db C → Db C
  mark_for_deletion id db = record db {
    stacks =
        update_where (λ s. str_eq s.id id) (λ s. record s { delete_after_destroy = true })
          db.stacks;
  }

  abbrev pub preview_job : Env → Stack C → RunType → String → Bool → List String → Db C → RunJobArgs
  preview_job env p type branch auto_apply overrides db = record {
    run_id = env.uuid db.serial;
    stack_id = p.id;
    source = record p.source { repo_branch = branch };
    run_type = typed type;
    api_url = env.api_url;
    auto_apply = auto_apply;
    var_overrides = overrides;
  }

  -- the marked stack, the destroy run and its job
  abbrev pub destroy_preview : Env → Stack C → Db C → Db C
  destroy_preview env p db =
      enqueue_run (preview_job env p destroy p.source.repo_branch false [] db)
        (insert_run env (pr_run p.id destroy) (mark_for_deletion p.id db))

  abbrev pub in_org : String → String → Db C → Bool
  in_org org id db = any (λ s. str_eq s.id id && str_eq s.org_id org) db.stacks

  -- the columns of a preview stack; the others take the defaults of the table
  abbrev pub preview_stack : String → String → String → Template → String → Stack C
  preview_stack id org slug t branch = record {
    id = id;
    org_id = org;
    name = slug;
    slug = slug;
    project_id = none;
    source = record t.source { repo_branch = branch };
    auto_apply = t.auto_apply;
    is_disabled = false;
    is_locked = false;
    worker_pool_id = none;
    approval_chain = null;
    auto_remediate_drift = false;
    delete_after_destroy = false;
    plan_block_on_alert = false;
    plan_alert_add = none;
    plan_alert_change = none;
    plan_alert_destroy = none;
    budget_threshold_usd = none;
    max_concurrent_runs = none;
    escalation_after_minutes = none;
    scheduled_destroy_at = none;
  }

  abbrev pub has_slug : String → String → Stack C → Bool
  has_slug org slug s = str_eq s.org_id org && str_eq s.slug slug

  abbrev pub preview_slug : (ℕ → String) → Stack C → ℕ → String
  preview_slug decimal s number = str_append s.slug (str_append "-pr-" (decimal number))

abbrev pub preview_hook : String → String → WebhookEvent → String → Hook
preview_hook id source e secret = record {
  stack_id = id;
  webhook_secret = some secret;
  filters = record { trigger_paths = []; skip_commit_message_patterns = []; skip_actors = [] };
  module_namespace = none;
  module_name = none;
  module_provider = none;
  pr_preview_enabled = false;
  pr_preview_template_id = none;
  preview_source_stack_id = some source;
  preview_pr_number = some e.pr_number;
}

abbrev pub pr_overrides : (ℕ → String) → WebhookEvent → List String
pr_overrides decimal e =
    str_append "PR_NUMBER=" (decimal e.pr_number)
    ∷ str_append "PR_BRANCH=" e.branch
    ∷ str_append "PR_URL=" e.pr_url
    ∷ []

module _ {C B : Type 0} where
  -- `handlePRClose`
  unfoldable pub handle_pr_close :
      Env → Stack C → Arrival B → WebhookEvent → Inbox C B → Result (Unit {0}) × Inbox C B
  handle_pr_close env s a e st =
      elim (find? (λ h. is_preview_of s.id e.pr_number h && in_org s.org_id h.stack_id st.db)
        st.hooks) [
          | none ↦ skip env s.id a "no_preview_stack" st
          | some h ↦ elim (find_stack h.stack_id st.db) [
            | none ↦ (http_error 500, st)
            | some p ↦ (
              ok tt,
              record_delivery env s.id a "triggered" "" (some (env.uuid st.db.serial))
                  (record st { db = destroy_preview env p st.db }),
            )
          ]
        ]

  -- the tracked run on a preview stack
  abbrev pub queue_preview : Env → (ℕ → String) → WebhookEvent → String → Inbox C B → Inbox C B
  queue_preview env decimal e id st = elim (find_stack id st.db) [
    | none ↦ st
    | some p ↦ record st {
      db =
          enqueue_run (preview_job env p tracked e.branch true (pr_overrides decimal e) st.db)
            (insert_run env (pr_run p.id tracked) st.db);
    }
  ]

  -- the new rows of a preview stack
  abbrev pub add_preview :
      Env → String → WebhookEvent → Stack C → Template → String → Inbox C B → Inbox C B
  add_preview env slug e s t secret st = record st {
    db = record st.db {
      stacks = st.db.stacks ++ preview_stack (env.uuid st.db.serial) s.org_id slug t e.branch ∷ [];
      serial = suc st.db.serial;
    };
    hooks = st.hooks ++ preview_hook (env.uuid st.db.serial) s.id e secret ∷ [];
  }

  -- INSERT INTO stacks … ON CONFLICT (org_id, slug) DO UPDATE SET updated_at … RETURNING id, and
  -- the run on the stack of that ID
  abbrev pub create_preview :
      Env → (ℕ → String) → WebhookEvent → Stack C → Template → String → Inbox C B → Inbox C B
  create_preview env decimal e s t secret st =
      let slug = preview_slug decimal s e.pr_number in
      elim (find? (has_slug s.org_id slug) st.db.stacks) [
        | some x ↦ queue_preview env decimal e x.id st
        | none ↦
            queue_preview env decimal e (env.uuid st.db.serial)
              (add_preview env slug e s t secret st)
      ]

  unfoldable pub spawn_from :
      Env → (ℕ → String) → WebhookEvent → Stack C → Option String → String → Inbox C B → Inbox C B
  spawn_from env decimal e s none secret st = st
  spawn_from env decimal e s (some template) secret st =
      elim (find? (is_preview_of s.id e.pr_number) st.hooks) [
        | some h ↦ queue_preview env decimal e h.stack_id st
        | none ↦ elim (find? (λ t. str_eq t.id template && str_eq t.org_id s.org_id) st.templates) [
          | none ↦ st
          | some t ↦ create_preview env decimal e s t secret st
        ]
      ]

  -- `maybeSpawnPreview`, with the secret that is drawn for a new stack
  unfoldable pub maybe_spawn_preview :
      Env → (ℕ → String) → WebhookEvent → Stack C → Hook → String → Inbox C B → Inbox C B
  unfolding spawn_from
  maybe_spawn_preview env decimal e s h secret st =
      if not (is_proposed e.run_type) || e.pr_number == 0
      then st
      else if not h.pr_preview_enabled
      then st
      else spawn_from env decimal e s h.pr_preview_template_id secret st
