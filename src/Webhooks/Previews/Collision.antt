-- ===== src/Webhooks/Previews/Collision.antt =====
-- A pull request whose preview would have the slug of another stack.
use crucible_iap.Base.{
  ℕ, String, ◌≡◌, refl, true, false, ◌&&◌, none, some, [], ◌∷◌, ◌++◌, str_eq, ◌==◌, find?,
}
use crucible_iap.Db.{tracked, Run, RunJobArgs, Stack}
use crucible_iap.Db.Env.{Env}
use crucible_iap.Db.Query.{find_stack, inserted}
use crucible_iap.Webhooks.Events.{WebhookEvent}
use crucible_iap.Webhooks.Deliveries.{Hook, Template, Inbox}
use crucible_iap.Webhooks.Previews.{
  is_proposed, is_preview_of, has_slug, preview_slug, preview_job, pr_overrides, pr_run,
  queue_preview, create_preview, spawn_from, maybe_spawn_preview,
}

module _ {C B : Type 0} where
  -- An open pull request without a preview, of a stack with previews enabled and a template, runs on
  -- the stack that has the slug of its preview, where the organisation has one: a tracked run of the
  -- branch of the pull request is queued on that stack, confirms itself, and no preview is recorded.
  pub maybe_spawn_preview-collides :
      (env : Env) (decimal : ℕ → String) (e : WebhookEvent) (s x : Stack C) (h : Hook)
      (template secret : String) (t : Template) (st : Inbox C B)
      → is_proposed e.run_type ≡ true
      → (e.pr_number == 0) ≡ false
      → h.pr_preview_enabled ≡ true
      → h.pr_preview_template_id ≡ some template
      → find? (is_preview_of s.id e.pr_number) st.hooks ≡ none
      → find? (λ t. str_eq t.id template && str_eq t.org_id s.org_id) st.templates ≡ some t
      → find? (has_slug s.org_id (preview_slug decimal s e.pr_number)) st.db.stacks ≡ some x
      → find_stack x.id st.db ≡ some x
      → let after = maybe_spawn_preview env decimal e s h secret st in
        (after.hooks ≡ st.hooks)
        × (new : Run C) × (after.db.runs ≡ st.db.runs ++ new ∷ [])
        × (new.stack_id ≡ x.id)
        × (new.type ≡ tracked)
        × (j : RunJobArgs) × (after.db.jobs
            ≡ st.db.jobs ++ (record { args = j; scheduled_at = none }) ∷ [])
        × (j.run_id ≡ new.id)
        × (j.auto_apply ≡ true)
        × (j.source ≡ record x.source { repo_branch = e.branch })
  unfolding maybe_spawn_preview spawn_from
  maybe_spawn_preview-collides env decimal e s x h template secret t st p n v o f g k l =
      rw (p, maybe_spawn_preview)
        (rw n (
          rw v (
            rw (o, spawn_from)
              (rw (f, spawn_from)
                (rw g (
                  rw (k, create_preview)
                    (rw (l, queue_preview)
                      (
                        refl,
                        inserted env (pr_run x.id tracked) st.db,
                        refl,
                        refl,
                        refl,
                        preview_job env x tracked e.branch true (pr_overrides decimal e) st.db,
                        refl,
                        refl,
                        refl,
                        refl,
                      ))))))))
