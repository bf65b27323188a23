-- ===== src/Webhooks/Previews/Growth.antt =====
-- What the preview stack of a pull request adds to the tables.
use mathlib.Core.List.{append-nil}
use crucible_iap.Base.{
  ℕ, String, ◌≡◌, refl, sym, inl, inr, false, not, ◌&&◌, ◌||◌, Option, none, some, List, [], ◌++◌,
  str_eq, ◌==◌, find?, Bool-cases, Option-cases,
}
use crucible_iap.Db.{Run, Job, Stack}
use crucible_iap.Db.Env.{Env}
use crucible_iap.Db.Query.{find_stack}
use crucible_iap.Webhooks.Events.{WebhookEvent}
use crucible_iap.Webhooks.Deliveries.{Hook, Template, Inbox}
use crucible_iap.Webhooks.Previews.{
  is_proposed, is_preview_of, has_slug, preview_slug, queue_preview, add_preview, create_preview,
  spawn_from, maybe_spawn_preview,
}

module _ {C B : Type 0} where
  -- the tables with runs and jobs behind those that were there, and the same deliveries
  abbrev pub Grows : Inbox C B → Inbox C B → Type 0
  Grows st after =
      (after.deliveries ≡ st.deliveries)
      × (rs : List (Run C)) × (after.db.runs ≡ st.db.runs ++ rs)
      × (js : List Job) × (after.db.jobs ≡ st.db.jobs ++ js)

  abbrev pub Grows-refl : (st : Inbox C B) → Grows st st
  Grows-refl st = (refl, [], sym (append-nil st.db.runs), [], sym (append-nil st.db.jobs))

  queue_preview-Grows :
      (env : Env) (decimal : ℕ → String) (e : WebhookEvent) (id : String) (st : Inbox C B)
      → Grows st (queue_preview env decimal e id st)
  queue_preview-Grows env decimal e id st = elim (Option-cases (find_stack id st.db)) [
    | inl k ↦ rw (k, queue_preview) (Grows-refl st)
    | inr (p, k) ↦ rw (k, queue_preview) (refl, _, refl, _, refl)
  ]

  create_preview-Grows :
      (env : Env) (decimal : ℕ → String) (e : WebhookEvent) (s : Stack C) (t : Template)
      (secret : String) (st : Inbox C B)
      → Grows st (create_preview env decimal e s t secret st)
  create_preview-Grows env decimal e s t secret st =
      elim (Option-cases
        (find? (has_slug s.org_id (preview_slug decimal s e.pr_number)) st.db.stacks)) [
          | inl k ↦
              rw (k, create_preview)
                (queue_preview-Grows env decimal e _ (add_preview env _ e s t secret st))
          | inr (x, k) ↦ rw (k, create_preview) (queue_preview-Grows env decimal e x.id st)
        ]

  spawn_from-Grows :
      (env : Env) (decimal : ℕ → String) (e : WebhookEvent) (s : Stack C) (o : Option String)
      (secret : String) (st : Inbox C B)
      → Grows st (spawn_from env decimal e s o secret st)
  unfolding spawn_from
  spawn_from-Grows env decimal e s none secret st = Grows-refl st
  spawn_from-Grows env decimal e s (some id) secret st =
      elim (Option-cases (find? (is_preview_of s.id e.pr_number) st.hooks)) [
        | inr (h, k) ↦ rw (k, spawn_from) (queue_preview-Grows env decimal e h.stack_id st)
        | inl k ↦
            elim (Option-cases
              (find? (λ t. str_eq t.id id && str_eq t.org_id s.org_id) st.templates)) [
                | inl l ↦ rw (k, spawn_from) (rw l (Grows-refl st))
                | inr (t, l) ↦
                    rw (k, spawn_from) (rw l (create_preview-Grows env decimal e s t secret st))
              ]
      ]

  pub maybe_spawn_preview-tracked :
      (env : Env) (decimal : ℕ → String) (e : WebhookEvent) (s : Stack C) (h : Hook)
      (secret : String) (st : Inbox C B)
      → is_proposed e.run_type ≡ false
      → maybe_spawn_preview env decimal e s h secret st ≡ st
  unfolding maybe_spawn_preview
  maybe_spawn_preview-tracked env decimal e s h secret st k = rw (k, maybe_spawn_preview) refl

  pub maybe_spawn_preview-Grows :
      (env : Env) (decimal : ℕ → String) (e : WebhookEvent) (s : Stack C) (h : Hook)
      (secret : String) (st : Inbox C B)
      → Grows st (maybe_spawn_preview env decimal e s h secret st)
  unfolding maybe_spawn_preview
  maybe_spawn_preview-Grows env decimal e s h secret st =
      elim (Bool-cases (not (is_proposed e.run_type) || e.pr_number == 0)) [
        | inl k ↦ rw k (Grows-refl st)
        | inr k ↦ elim (Bool-cases (not h.pr_preview_enabled)) [
          | inl l ↦ rw k (rw l (Grows-refl st))
          | inr l ↦
              rw k (rw l (spawn_from-Grows env decimal e s h.pr_preview_template_id secret st))
        ]
      ]
