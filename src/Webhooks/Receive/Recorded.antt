-- ===== src/Webhooks/Receive/Recorded.antt =====
-- What every request of a webhook leaves in the deliveries.
use crucible_iap.Base.{
  ℕ, String, ◌≡◌, ◌⊎◌, refl, inl, inr, Bool, true, false, not, ◌&&◌, Option, none, some, List, [],
  ◌∷◌, ◌++◌, arith, str_eq, any, find?, find?-passes, eq_iff, subst, if-cases, Bool-cases,
  Option-cases,
}
use crucible_iap.Db.{Stack, Db}
use crucible_iap.Db.Env.{Env, Result, ok, http_error}
use crucible_iap.Db.Query.{find_stack}
use crucible_iap.Webhooks.Events.{WebhookEvent, trim_prefix, Parsed, invalid, ignored, event}
use crucible_iap.Webhooks.Deliveries.{
  Hook, Arrival, Delivery, Inbox, Payloads, trim_payload, find_hook,
}
use crucible_iap.Webhooks.Verify.{Wire, Headers, parse_and_verify}
use crucible_iap.Webhooks.Tags.{module_of, is_semver, publish_tag, handle_tag_push}
use crucible_iap.Webhooks.Previews.{is_preview_of, in_org, handle_pr_close}
use crucible_iap.Webhooks.Previews.Growth.{maybe_spawn_preview-Grows}
use crucible_iap.Webhooks.{
  Texts, skip_reason, settle_event, triggered, dispatch_on, dispatch_row, dispatch_event,
}
use crucible_iap.Webhooks.Receive.{arrival_of, receive_parsed, receive_with, receive_row, receive}

any-finds :
    {A : Type 0} (p q : A → Bool) (xs : List A)
    → any (λ x. p x && q x) xs ≡ true
    → (x : A) × (find? p xs ≡ some x)
any-finds p q [] h = absurd (ground arith)
any-finds p q (x ∷ xs) h = elim (Bool-cases (p x)) [
  | inl k ↦ (x, rw k refl)
  | inr k ↦ rw k (any-finds p q xs (ground (arith, k)))
]

in_org-found :
    {C : Type 0} (org id : String) (db : Db C)
    → in_org org id db ≡ true
    → (s : Stack C) × (find_stack id db ≡ some s)
in_org-found org id db h = any-finds (λ s. str_eq s.id id) (λ s. str_eq s.org_id org) db.stacks h

module _ {C B : Type 0} where
  -- One delivery more, of this stack: triggered, or skipped or rejected with 401, and then no other
  -- table changed.
  abbrev pub Recorded : String → Inbox C B → Result (Unit {0}) × Inbox C B → Type 0
  Recorded id st out =
      (d : Delivery B) × (out.1.deliveries ≡ st.deliveries ++ d ∷ [])
      × (d.stack_id ≡ id)
      × (((d.outcome ≡ "triggered") × (out.0 ≡ ok tt))
          ⊎ (((d.outcome ≡ "skipped") ⊎ ((d.outcome ≡ "rejected") × (out.0 ≡ http_error 401)))
              × (out.1 ≡ record st { deliveries = st.deliveries ++ d ∷ [] })))

  publish_tag-Recorded :
      (env : Env) (id : String) (a : Arrival B) (e : WebhookEvent)
      (m : Option (String × String × String)) (st : Inbox C B)
      → Recorded id st (publish_tag env id a e m st)
  unfolding publish_tag
  publish_tag-Recorded env id a e none st = (_, refl, refl, inr (inl refl, refl))
  publish_tag-Recorded env id a e (some (ns, name, provider)) st =
      elim (Bool-cases (not (is_semver (trim_prefix "v" e.tag_name)))) [
        | inl k ↦ rw (k, publish_tag) (_, refl, refl, inr (inl refl, refl))
        | inr k ↦ rw (k, publish_tag) (_, refl, refl, inl (refl, refl))
      ]

  handle_pr_close-Recorded :
      (env : Env) (s : Stack C) (a : Arrival B) (e : WebhookEvent) (st : Inbox C B)
      → Recorded s.id st (handle_pr_close env s a e st)
  unfolding handle_pr_close
  handle_pr_close-Recorded env s a e st =
      let p : Hook → Bool =
        λ h. is_preview_of s.id e.pr_number h && in_org s.org_id h.stack_id st.db in
      elim (Option-cases (find? p st.hooks)) [
        | inl k ↦ rw (k, handle_pr_close) (_, refl, refl, inr (inl refl, refl))
        | inr (h, k) ↦
            let (x, f) =
              in_org-found s.org_id h.stack_id st.db
                (ground (arith, find?-passes p st.hooks {a = h} k)) in
            rw (k, handle_pr_close) (rw f (_, refl, refl, inl (refl, refl)))
      ]

  settle_event-Recorded :
      (env : Env) (decimal : ℕ → String) (secret : String) (s : Stack C) (h : Hook) (a : Arrival B)
      (e : WebhookEvent) (reason : Option String) (st : Inbox C B)
      → ((e.run_type ≡ none)
          × (settle_event env decimal secret s h a e reason st ≡ (http_error 500, st)))
        ⊎ Recorded s.id st (settle_event env decimal secret s h a e reason st)
  unfolding settle_event
  settle_event-Recorded env decimal secret s h a e (some reason) st =
      inr (_, refl, refl, inr (inl refl, refl))
  settle_event-Recorded env decimal secret s h a e none st = elim (Option-cases e.run_type) [
    | inl k ↦ inl (k, rw (k, settle_event) refl)
    | inr (t, k) ↦ inr (
        rw (k, settle_event)
          (
            _,
            (maybe_spawn_preview-Grows env decimal e s h secret (triggered env s a e t st)).0,
            refl,
            inl (refl, refl),
          ))
  ]

-- an event that asks for nothing: no tag, no closed pull request and no run
abbrev pub Idle : WebhookEvent → Type 0
Idle e = (str_eq e.tag_name "" ≡ true) × (e.pr_closed ≡ false) × (e.run_type ≡ none)

abbrev pub Handled :
    {C B : Type 0} → String → WebhookEvent → Inbox C B → Result (Unit {0}) × Inbox C B → Type 0
Handled id e st out = (Idle e × (out ≡ (http_error 500, st))) ⊎ Recorded id st out

module _ {C B : Type 0} where
  -- what a request to a stack leaves, by the event that it stands for
  abbrev pub Received : String → Inbox C B → Parsed → Result (Unit {0}) × Inbox C B → Type 0
  Received id st p out =
      ((e : WebhookEvent) × (p ≡ event e) × Idle e × (out ≡ (http_error 500, st)))
      ⊎ Recorded id st out

  -- the same, by the request and the secret of the stack
  abbrev pub Answered :
      Wire B
      → Headers
      → B
      → Option String
      → String
      → Inbox C B
      → Result (Unit {0}) × Inbox C B
      → Type 0
  Answered W hd body secret id st out =
      ((key : String) × (secret ≡ some key)
        × (e : WebhookEvent) × (parse_and_verify W hd body key ≡ event e)
        × Idle e
        × (out ≡ (http_error 500, st)))
      ⊎ Recorded id st out

module _ (compile : String → Option (String → Bool)) (T : Texts) (decimal : ℕ → String)
    {C B : Type 0} where
  dispatch_on-Recorded :
      (env : Env) (secret : String) (s : Stack C) (h : Hook) (a : Arrival B) (e : WebhookEvent)
      (st : Inbox C B)
      → Handled s.id e st (dispatch_on compile T decimal env secret s h a e st)
  unfolding dispatch_on handle_tag_push
  dispatch_on-Recorded env secret s h a e st =
      let P = Handled s.id e st in
      if-cases P s.is_disabled (λ n. inr (_, refl, refl, inr (inl refl, refl)))
        (λ n.
          if-cases P (not (str_eq e.tag_name ""))
            (λ k. inr (publish_tag-Recorded env s.id a e (module_of h) st))
            (λ k.
              if-cases P e.pr_closed (λ c. inr (handle_pr_close-Recorded env s a e st))
                (λ c.
                  elim (settle_event-Recorded env decimal secret s h a e
                    (skip_reason compile T h.filters e s st.db) st) [
                      | inl (r, q) ↦ inl ((ground arith, c, r), q)
                      | inr q ↦ inr q
                    ])))

  dispatch_event-Recorded :
      (env : Env) (fresh id : String) (a : Arrival B) (e : WebhookEvent) (st : Inbox C B)
      (s : Stack C) (h : Hook)
      → find_stack id st.db ≡ some s
      → find_hook id st ≡ some h
      → Handled id e st (dispatch_event compile T decimal env fresh id a e st)
  unfolding dispatch_event dispatch_row
  dispatch_event-Recorded env fresh id a e st s h f g =
      rw (f, dispatch_event)
        (rw (g, dispatch_row)
          (subst (λ i. Handled i e st (dispatch_on compile T decimal env fresh s h a e st))
            ((eq_iff s.id id).0 (find?-passes (λ s. str_eq s.id id) st.db.stacks {a = s} f))
            (dispatch_on-Recorded env fresh s h a e st)))

  receive_parsed-Recorded :
      (env : Env) (fresh id : String) (a : Arrival B) (p : Parsed) (st : Inbox C B) (s : Stack C)
      (h : Hook)
      → find_stack id st.db ≡ some s
      → find_hook id st ≡ some h
      → Received id st p (receive_parsed compile T decimal env fresh id a p st)
  unfolding receive_parsed
  receive_parsed-Recorded env fresh id a invalid st s h f g =
      inr (_, refl, refl, inr (inr (refl, refl), refl))
  receive_parsed-Recorded env fresh id a ignored st s h f g =
      inr (_, refl, refl, inr (inl refl, refl))
  receive_parsed-Recorded env fresh id a (event e) st s h f g =
      elim (dispatch_event-Recorded env fresh id a e st s h f g) [
        | inl (i, q) ↦ inl (e, refl, i, q)
        | inr q ↦ inr q
      ]

  receive_with-Recorded :
      (env : Env) (fresh : String) (P : Payloads B) (W : Wire B) (hd : Headers) (body : B)
      (secret : Option String) (id : String) (st : Inbox C B) (s : Stack C) (h : Hook)
      → find_stack id st.db ≡ some s
      → find_hook id st ≡ some h
      → Answered W hd body secret id st
          (receive_with compile T decimal env fresh P W hd body secret id st)
  unfolding receive_with
  receive_with-Recorded env fresh P W hd body none id st s h f g =
      inr (_, refl, refl, inr (inr (refl, refl), refl))
  receive_with-Recorded env fresh P W hd body (some key) id st s h f g =
      if-cases (Answered W hd body (some key) id st) (str_eq key "")
        (λ e. inr (_, refl, refl, inr (inr (refl, refl), refl)))
        (λ n.
          elim (receive_parsed-Recorded env fresh id (arrival_of hd (trim_payload P body))
            (parse_and_verify W hd body key) st s h f g) [
              | inl (e, q, i, o) ↦ inl (key, refl, e, q, i, o)
              | inr q ↦ inr q
            ])

  -- Provided that the statements of the database succeed, the INSERT of the delivery and of the job
  -- included: a request to a stack that exists and has a webhook leaves one delivery of that stack,
  -- triggered, or skipped or rejected with 401 and then no other table changes. The one exception is an
  -- event that carries no tag, no closed pull request and no run type: it is answered 500 and leaves
  -- nothing.
  pub receive-Recorded :
      (env : Env) (fresh : String) (P : Payloads B) (W : Wire B) (hd : Headers) (body : B)
      (id : String) (st : Inbox C B) (s : Stack C) (h : Hook)
      → find_stack id st.db ≡ some s
      → find_hook id st ≡ some h
      → Answered W hd body h.webhook_secret id st
          (receive compile T decimal env fresh P W hd body id st)
  unfolding receive receive_row
  receive-Recorded env fresh P W hd body id st s h f g =
      rw (f, receive)
        (rw (g, receive_row)
          (if-cases (Answered W hd body h.webhook_secret id st) s.is_disabled
            (λ n. inr (_, refl, refl, inr (inl refl, refl)))
            (λ n. receive_with-Recorded env fresh P W hd body h.webhook_secret id st s h f g)))
