-- ===== src/Webhooks/Previews/Lifecycle.antt =====
-- The life of a preview stack: made once for a pull request, marked when it closes, and deleted when
-- its destroy run ends.
use crucible_iap.Base.{
  ℕ, ◌≤◌, String, ◌≡◌, refl, sym, inl, inr, Bool, false, not, ◌&&◌, ◌||◌, Option, none, some, List,
  [], ◌∷◌, ◌++◌, arith, str_eq, eq_iff, ◌==◌, find?, find?-passes, subst, ap, ◌∙◌, count_if,
  count_if-append, if-cases, Bool-cases, Option-cases,
}
use crucible_iap.Db.{destroy, apply, Run, RunJobArgs, Job, Stack, Db}
use crucible_iap.Db.Env.{Env, Float64, ok}
use crucible_iap.Db.Query.{find_stack, inserted}
use crucible_iap.Policy.{Policy}
use crucible_iap.Runs.PlanPolicies.{PlanInput}
use crucible_iap.Runs.Finalize.{complete}
use crucible_iap.Runs.Finalize.Deletion.{mark, complete-marked}
use crucible_iap.Webhooks.Events.{WebhookEvent}
use crucible_iap.Webhooks.Deliveries.{Hook, Arrival, Delivery, Template, Inbox, record_delivery}
use crucible_iap.Webhooks.Previews.{
  is_proposed, is_preview_of, has_slug, preview_slug, preview_hook, queue_preview, add_preview,
  create_preview, spawn_from, maybe_spawn_preview, in_org, pr_run, destroy_preview,
  mark_for_deletion, handle_pr_close,
}

count_if-none : {A : Type 0} (p : A → Bool) (xs : List A) → find? p xs ≡ none → count_if p xs ≡ 0
count_if-none p [] h = refl
count_if-none p (x ∷ xs) h = ground (arith, count_if-none p xs)

-- the rows with one for a pull request that has none
one-more :
    (id source secret : String) (e : WebhookEvent) (source2 : String) (n : ℕ) (hooks : List Hook)
    → find? (is_preview_of source e.pr_number) hooks ≡ none
    → count_if (is_preview_of source2 n) hooks ≤ 1
    → count_if (is_preview_of source2 n) (hooks ++ preview_hook id source e secret ∷ []) ≤ 1
one-more id source secret e source2 n hooks f u =
    elim (Bool-cases (str_eq source source2 && e.pr_number == n)) [
      | inr k ↦ ground (
        arith,
        k,
        count_if-append (is_preview_of source2 n) hooks (preview_hook id source e secret ∷ []),
      )
      | inl k ↦
          let c =
            count_if-append (is_preview_of source2 n) hooks
              (preview_hook id source e secret ∷ []) in
          let a : source ≡ source2 = (eq_iff source source2).0 (ground arith) in
          let b : e.pr_number ≡ n = ground arith in
          let z : count_if (is_preview_of source2 n) hooks ≡ 0 =
            rw⁻¹ a (rw⁻¹ b (count_if-none (is_preview_of source e.pr_number) hooks f)) in
          ground (arith, c, z, k)
    ]

module _ {C B : Type 0} where
  -- no pull request of a stack has two previews
  abbrev pub Single : Inbox C B → Type 0
  Single st = (source : String) (number : ℕ) → count_if (is_preview_of source number) st.hooks ≤ 1

  queue_preview-hooks :
      (env : Env) (decimal : ℕ → String) (e : WebhookEvent) (id : String) (st : Inbox C B)
      → (queue_preview env decimal e id st).hooks ≡ st.hooks
  queue_preview-hooks env decimal e id st = elim (Option-cases (find_stack id st.db)) [
    | inl k ↦ rw (k, queue_preview) refl
    | inr (p, k) ↦ rw (k, queue_preview) refl
  ]

  create_preview-Single :
      (env : Env) (decimal : ℕ → String) (e : WebhookEvent) (s : Stack C) (t : Template)
      (secret : String) (st : Inbox C B)
      → find? (is_preview_of s.id e.pr_number) st.hooks ≡ none
      → Single st
      → Single (create_preview env decimal e s t secret st)
  create_preview-Single env decimal e s t secret st f u source n =
      elim (Option-cases
        (find? (has_slug s.org_id (preview_slug decimal s e.pr_number)) st.db.stacks)) [
          | inl k ↦
              rw (k, create_preview)
                (rw
                  (queue_preview-hooks env decimal e (env.uuid st.db.serial)
                    (add_preview env (preview_slug decimal s e.pr_number) e s t secret st))
                  (one-more (env.uuid st.db.serial) s.id secret e source n st.hooks f (u source n)))
          | inr (x, k) ↦
              rw (k, create_preview) (rw (queue_preview-hooks env decimal e x.id st) (u source n))
        ]

  spawn_from-Single :
      (env : Env) (decimal : ℕ → String) (e : WebhookEvent) (s : Stack C) (o : Option String)
      (secret : String) (st : Inbox C B)
      → Single st
      → Single (spawn_from env decimal e s o secret st)
  unfolding spawn_from
  spawn_from-Single env decimal e s none secret st u source n = u source n
  spawn_from-Single env decimal e s (some id) secret st u source n =
      elim (Option-cases (find? (is_preview_of s.id e.pr_number) st.hooks)) [
        | inr (h, k) ↦
            rw (k, spawn_from) (rw (queue_preview-hooks env decimal e h.stack_id st) (u source n))
        | inl k ↦
            elim (Option-cases
              (find? (λ t. str_eq t.id id && str_eq t.org_id s.org_id) st.templates)) [
                | inl l ↦ rw (k, spawn_from) (rw l (u source n))
                | inr (t, l) ↦
                    rw (k, spawn_from)
                      (rw l (create_preview-Single env decimal e s t secret st k u source n))
              ]
      ]

  -- However often the events of a pull request arrive, one after the other, it has one preview at
  -- most: an event that may make a preview stack leaves no pull request with two.
  pub maybe_spawn_preview-Single :
      (env : Env) (decimal : ℕ → String) (e : WebhookEvent) (s : Stack C) (h : Hook)
      (secret : String) (st : Inbox C B)
      → Single st
      → Single (maybe_spawn_preview env decimal e s h secret st)
  unfolding maybe_spawn_preview
  maybe_spawn_preview-Single env decimal e s h secret st u =
      if-cases Single (not (is_proposed e.run_type) || e.pr_number == 0) (λ k. u)
        (λ k.
          if-cases Single (not h.pr_preview_enabled) (λ l. u)
            (λ l. spawn_from-Single env decimal e s h.pr_preview_template_id secret st u))

module _ {C : Type 0} ⦃F : Float64 C⦄ where
  -- the end of an apply, for the stacks that the destruction of a preview left
  destroyed-complete :
      (engine : Option (List (Policy (PlanInput C)))) (later env : Env) (org : String)
      (args : RunJobArgs) (id : String) (p : Stack C) (db rows : Db C)
      → find_stack id db ≡ some p
      → args.run_type ≡ apply
      → args.stack_id ≡ p.id
      → rows.stacks ≡ (destroy_preview env p db).stacks
      → find_stack p.id (complete engine later org args rows).1 ≡ none
  destroyed-complete engine later env org args id p db rows g t i e =
      let own : find_stack args.stack_id db ≡ some p =
        subst (λ j. find_stack j db ≡ some p)
          (sym (i ∙ (eq_iff p.id id).0 (find?-passes (λ s. str_eq s.id id) db.stacks {a = p} g)))
          g in
      subst (λ j. find_stack j (complete engine later org args rows).1 ≡ none) i
        (complete-marked engine later org args db.stacks p rows t own
          (e ∙ ap (λ j. mark j db.stacks) (sym i)))

module _ {C B : Type 0} ⦃F : Float64 C⦄ where
  -- A pull request that closes queues one destroy run on its preview stack, with a job of that run
  -- that does not confirm itself, and records it. The completion of an apply on that stack, of
  -- whichever run, at whatever tables whose stacks are still the ones that the close left, leaves no
  -- stack of its ID.
  pub handle_pr_close-deletes :
      (engine : Option (List (Policy (PlanInput C)))) (env later : Env) (org : String)
      (args : RunJobArgs) (s : Stack C) (a : Arrival B) (e : WebhookEvent) (st : Inbox C B)
      (h : Hook) (p : Stack C) (rows : Db C)
      → find? (λ h. is_preview_of s.id e.pr_number h && in_org s.org_id h.stack_id st.db) st.hooks
        ≡ some h
      → find_stack h.stack_id st.db ≡ some p
      → args.run_type ≡ apply
      → args.stack_id ≡ p.id
      → rows.stacks ≡ (handle_pr_close env s a e st).1.db.stacks
      → let out = handle_pr_close env s a e st in
        (out.0 ≡ ok tt)
        × ((new : Run C) × (out.1.db.runs ≡ st.db.runs ++ new ∷ [])
            × (new.stack_id ≡ p.id)
            × (new.type ≡ destroy)
            × (j : Job) × (out.1.db.jobs ≡ st.db.jobs ++ j ∷ [])
            × (j.args.run_id ≡ new.id)
            × (j.args.auto_apply ≡ false)
            × (d : Delivery B) × (out.1.deliveries ≡ st.deliveries ++ d ∷ [])
            × (d.run_id ≡ some new.id))
        × (find_stack p.id (complete engine later org args rows).1 ≡ none)
  unfolding handle_pr_close
  handle_pr_close-deletes engine env later org args s a e st h p rows f g t i k =
      let closed : handle_pr_close env s a e st ≡ (
        ok tt,
        record_delivery env s.id a "triggered" "" (some (env.uuid st.db.serial))
            (record st { db = destroy_preview env p st.db }),
      ) =
        rw (f, handle_pr_close) (rw g refl) in
      let gone : find_stack p.id (complete engine later org args rows).1 ≡ none =
        destroyed-complete engine later env org args h.stack_id p st.db rows g t i
          (k ∙ ap (λ o. o.1.db.stacks) closed) in
      rw (f, handle_pr_close)
        (rw g (
          refl,
          (
            inserted env (pr_run p.id destroy) (mark_for_deletion p.id st.db),
            refl,
            refl,
            refl,
            _,
            refl,
            refl,
            refl,
            _,
            refl,
            refl,
          ),
          gone,
        ))
