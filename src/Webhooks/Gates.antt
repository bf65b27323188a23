-- ===== src/Webhooks/Gates.antt =====
-- What a branch that was pushed, or an open pull request, leaves in the deliveries and in the table
-- of runs, and how far its run goes alone.
use mathlib.Core.List.{append_assoc}
use crucible_iap.Base.{
  ℕ, String, ◌≡◌, ◌≢◌, refl, ap, ◌∙◌, sym, inl, inr, Bool, true, false, Option, none, some, List,
  [], ◌∷◌, ◌++◌, if◌then◌else◌, arith, str_eq, Bool-cases, Option-cases,
}
use crucible_iap.Db.{
  unconfirmed, pending_approval, confirmed, RunType, tracked, typed, Run, Job, Stack, RunJobArgs,
  Db,
}
use crucible_iap.Db.Env.{Env, Float64}
use crucible_iap.Db.Query.{inserted, find_run, find_stack, status_of}
use crucible_iap.Policy.{Policy}
use crucible_iap.Quotas.{under, exceeded, check_concurrent_quota, QuotaCheck}
use crucible_iap.Runs.PlanPolicies.{PlanInput, evaluate_plan_policies}
use crucible_iap.Runs.Finalize.{complete_plan_phase}
use crucible_iap.Runs.Finalize.Effects.{plan_phase-status}
use crucible_iap.Webhooks.Events.{WebhookEvent}
use crucible_iap.Webhooks.Deliveries.{Filters, Hook, Arrival, Delivery, Inbox, find_hook}
use crucible_iap.Webhooks.Previews.Growth.{maybe_spawn_preview-Grows, maybe_spawn_preview-tracked}
use crucible_iap.Webhooks.{
  Texts, push_policy_skip_reason, quota_reason, skip_reason, trigger_run, event_run, triggered,
  settle_event, dispatch_on, dispatch_row, dispatch_event, event_job,
}

unforced : (asks : Bool) → some (if asks then pending_approval else unconfirmed) ≢ some confirmed
unforced asks h = ground (arith, Bool-cases asks)

quota_reason-none : (q : QuotaCheck) → quota_reason q ≡ none → q ≡ under
quota_reason-none under h = refl
quota_reason-none (exceeded limit active) h = absurd (ground arith)

trigger_run-runs :
    {C : Type 0} (env : Env) (e : WebhookEvent) (t : RunType) (s : Stack C) (db : Db C)
    → (trigger_run env e t s db).runs ≡ db.runs ++ inserted env (event_run e t s) db ∷ []
trigger_run-runs env e t s db = elim (Option-cases s.worker_pool_id) [
  | inl p ↦ rw (p, trigger_run) refl
  | inr (pool, p) ↦ rw (p, trigger_run) refl
]

module _ {C B : Type 0} where
  -- the two ends of an event: skipped, with the other tables as they were, or with a run in the pool
  -- of its stack first of those added
  abbrev pub Ended : Stack C → Option String → Inbox C B → Delivery B → Inbox C B → Type 0
  Ended s (some reason) st d after =
      (d.outcome ≡ "skipped")
      × (d.skip_reason ≡ reason)
      × (d.run_id ≡ none)
      × (after ≡ record st { deliveries = st.deliveries ++ d ∷ [] })
  Ended s none st d after =
      (d.outcome ≡ "triggered")
      × (new : Run C) × (d.run_id ≡ some new.id)
      × (new.stack_id ≡ s.id)
      × (new.worker_pool_id ≡ s.worker_pool_id)
      × (previews : List (Run C)) × (after.db.runs ≡ st.db.runs ++ new ∷ previews)

  settle_event-Ended :
      (env : Env) (decimal : ℕ → String) (secret : String) (s : Stack C) (h : Hook) (a : Arrival B)
      (e : WebhookEvent) (t : RunType) (reason : Option String) (st : Inbox C B)
      → e.run_type ≡ some t
      → (d : Delivery B) × ((settle_event env decimal secret s h a e reason st).1.deliveries
          ≡ st.deliveries ++ d ∷ [])
        × (d.stack_id ≡ s.id)
        × (d.arrival ≡ a)
        × Ended s reason st d (settle_event env decimal secret s h a e reason st).1
  unfolding settle_event
  settle_event-Ended env decimal secret s h a e t (some reason) st k =
      (_, refl, refl, refl, (refl, refl, refl, refl))
  settle_event-Ended env decimal secret s h a e t none st k =
      let (ds, rs, runs, js, jobs) =
        maybe_spawn_preview-Grows env decimal e s h secret (triggered env s a e t st) in
      rw (k, settle_event)
        (
          _,
          ds,
          refl,
          refl,
          (
            refl,
            inserted env (event_run e t s) st.db,
            refl,
            refl,
            refl,
            rs,
            runs
                ∙ ap (λ l. l ++ rs) (trigger_run-runs env e t s st.db)
                ∙ append_assoc st.db.runs (inserted env (event_run e t s) st.db ∷ []) rs,
          ),
        )

module _ (compile : String → Option (String → Bool)) (T : Texts) {C : Type 0} where
  reason_none :
      (f : Filters) (e : WebhookEvent) (s : Stack C) (db : Db C)
      → skip_reason compile T f e s db ≡ none
      → check_concurrent_quota s.org_id db ≡ under
  unfolding skip_reason
  reason_none f e s db k =
      elim (Option-cases (
        push_policy_skip_reason T f.skip_commit_message_patterns f.skip_actors e.commit_message
          e.actor)) [
            | inl p ↦ quota_reason-none (check_concurrent_quota s.org_id db) (ground arith)
            | inr (r, p) ↦ absurd (ground arith)
          ]

-- an event that asks for a run of an enabled stack
abbrev pub Runs :
    {C B : Type 0} → Inbox C B → String → Stack C → Hook → WebhookEvent → RunType → Type 0
Runs st id s h e t =
    (find_stack id st.db ≡ some s)
    × (find_hook id st ≡ some h)
    × (s.is_disabled ≡ false)
    × (str_eq e.tag_name "" ≡ true)
    × (e.pr_closed ≡ false)
    × (e.run_type ≡ some t)

module _ (compile : String → Option (String → Bool)) (T : Texts) (decimal : ℕ → String)
    {C B : Type 0} where
  dispatch_event-settles :
      (env : Env) (secret id : String) (a : Arrival B) (e : WebhookEvent) (t : RunType)
      (st : Inbox C B) (s : Stack C) (h : Hook)
      → Runs st id s h e t
      → dispatch_event compile T decimal env secret id a e st
        ≡ settle_event env decimal secret s h a e (skip_reason compile T h.filters e s st.db) st
  unfolding dispatch_event dispatch_row dispatch_on
  dispatch_event-settles env secret id a e t st s h (f, g, n, k, c, r) =
      rw (f, dispatch_event) (rw (g, dispatch_row) (rw (n, dispatch_on) (rw k (rw c refl))))

  -- An event that asks for a run of an enabled stack leaves one delivery, which holds what arrived.
  -- It is skipped, with the reason and without another change of the tables, or triggered: then the
  -- first run that is added has the ID of the delivery and the worker pool of the stack, and the
  -- organisation was below its quota.
  pub dispatch_event-Ended :
      (env : Env) (secret id : String) (a : Arrival B) (e : WebhookEvent) (t : RunType)
      (st : Inbox C B) (s : Stack C) (h : Hook)
      → Runs st id s h e t
      → ((d : Delivery B) × ((dispatch_event compile T decimal env secret id a e st).1.deliveries
            ≡ st.deliveries ++ d ∷ [])
          × (d.stack_id ≡ s.id)
          × (d.arrival ≡ a)
          × Ended s
              (skip_reason compile T h.filters e s st.db)
              st
              d
              (dispatch_event compile T decimal env secret id a e st).1)
        × (skip_reason compile T h.filters e s st.db ≡ none
            → check_concurrent_quota s.org_id st.db ≡ under)
  dispatch_event-Ended env secret id a e t st s h r = (
    rw (dispatch_event-settles env secret id a e t st s h r) (
        settle_event-Ended env decimal secret s h a e t (skip_reason compile T h.filters e s st.db)
          st r.5),
    reason_none compile T h.filters e s st.db,
  )

module _ (compile : String → Option (String → Bool)) (T : Texts) (decimal : ℕ → String)
    {C B : Type 0} where
  -- The event of an enabled stack without a worker pool that no test skips puts a job for the stack's
  -- own branch into the queue, also where the event is a pull request of another branch.
  pub dispatch_event-own_branch :
      (env : Env) (secret id : String) (a : Arrival B) (e : WebhookEvent) (t : RunType)
      (st : Inbox C B) (s : Stack C) (h : Hook)
      → Runs st id s h e t
      → skip_reason compile T h.filters e s st.db ≡ none
      → s.worker_pool_id ≡ none
      → (j : RunJobArgs) × (previews : List Job) × ((dispatch_event compile T decimal env secret id
            a e st).1.db.jobs
          ≡ st.db.jobs ++ (record { args = j; scheduled_at = none }) ∷ previews)
        × (j.run_type ≡ typed t)
        × (j.source ≡ s.source)
  unfolding settle_event
  dispatch_event-own_branch env secret id a e t st s h r k p =
      let j = event_job env t s (env.uuid st.db.serial) in
      let (ds, rs, runs, js, jobs) =
        maybe_spawn_preview-Grows env decimal e s h secret (triggered env s a e t st) in
      let one : (trigger_run env e t s st.db).jobs
          ≡ st.db.jobs ++ (record { args = j; scheduled_at = none }) ∷ [] =
        rw (p, trigger_run) refl in
      rw (dispatch_event-settles compile T decimal env secret id a e t st s h r) (
        rw k (
          rw (r.5, settle_event)
            (
              j,
              js,
              jobs
                  ∙ ap (λ l. l ++ js) one
                  ∙ append_assoc st.db.jobs ((record { args = j; scheduled_at = none }) ∷ []) js,
              refl,
              refl,
            )))

module _ (compile : String → Option (String → Bool)) (T : Texts) (decimal : ℕ → String)
    {C B : Type 0} ⦃F : Float64 C⦄ where
  -- The push of an enabled stack without a worker pool that no test skips puts one job into the
  -- queue, and the run of that job is not confirmed by the plan phase that no policy denies: it
  -- waits for a user, also where the stack has auto-apply.
  pub dispatch_event-waits :
      (engine : Option (List (Policy (PlanInput C)))) (env later : Env) (secret id : String)
      (a : Arrival B) (e : WebhookEvent) (st : Inbox C B) (s : Stack C) (h : Hook)
      → Runs st id s h e tracked
      → skip_reason compile T h.filters e s st.db ≡ none
      → s.worker_pool_id ≡ none
      → (j : RunJobArgs) × ((dispatch_event compile T decimal env secret id a e st).1.db.jobs
          ≡ st.db.jobs ++ (record { args = j; scheduled_at = none }) ∷ [])
        × ((org : String) (db : Db C) (r : Run C)
            → find_run j.run_id db ≡ some r
            → (evaluate_plan_policies engine j db).0.denied ≡ false
            → status_of j.run_id (complete_plan_phase engine later org j db).1 ≢ some confirmed)
  unfolding settle_event
  dispatch_event-waits engine env later secret id a e st s h r k p = (
    event_job env tracked s (env.uuid st.db.serial),
    rw (dispatch_event-settles compile T decimal env secret id a e tracked st s h r) (
        rw k (
          rw (r.5, settle_event)
            (rw
              (maybe_spawn_preview-tracked env decimal e s h secret (triggered env s a e tracked st)
                (rw r.5 refl))
              (rw (p, trigger_run) refl)))),
    (λ org db r g d w.
        unforced (evaluate_plan_policies engine _ db).0.requires_approval
          (sym (plan_phase-status engine later org _ db {r = r} g d) ∙ w)),
  )
