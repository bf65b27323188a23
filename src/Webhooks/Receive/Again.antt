-- ===== src/Webhooks/Receive/Again.antt =====
-- What `Redeliver` does with a delivery that is stored.
use crucible_iap.Base.{
  String, ◌≡◌, ◌⊎◌, refl, ◌∙◌, inl, inr, false, ◌&&◌, Option, none, some, [], ◌∷◌, ◌++◌, arith,
  str_eq, eq_iff, find?-append, if-cases, length, Bool-cases, Option-cases,
}
use crucible_iap.Db.{RunType, Run, RunJobArgs, Stack}
use crucible_iap.Db.Env.{Env, Caller, ok}
use crucible_iap.Db.Query.{inserted}
use crucible_iap.Quotas.{QuotaCheck, under, exceeded, check_concurrent_quota}
use crucible_iap.Webhooks.{event_job, event_run}
use crucible_iap.Webhooks.Events.{WebhookEvent, Parsed, invalid, ignored, event}
use crucible_iap.Webhooks.Deliveries.{Arrival, Delivery, Inbox, delivery_row, record_delivery}
use crucible_iap.Webhooks.Verify.{Wire}
use crucible_iap.Webhooks.Receive.{
  reparse, find_own_stack, find_delivery, redeliver_event, redeliver_parsed, redeliver_row,
  redeliver,
}

module _ {C B : Type 0} where
  -- a run more of the stack, outside its pool, with its job and its delivery
  abbrev pub Queued : Stack C → Inbox C B → Inbox C B → Type 0
  Queued s st after =
      (new : Run C) × (after.db.runs ≡ st.db.runs ++ new ∷ [])
      × (new.stack_id ≡ s.id)
      × (new.worker_pool_id ≡ none)
      × (j : RunJobArgs) × (after.db.jobs
          ≡ st.db.jobs ++ (record { args = j; scheduled_at = none }) ∷ [])
      × (j.run_id ≡ new.id)
      × (d : Delivery B) × (after.deliveries ≡ st.deliveries ++ d ∷ [])
      × (d.outcome ≡ "triggered")
      × (d.run_id ≡ some new.id)

  redeliver_event-some :
      (env : Env) (k : Caller) (s : Stack C) (d : Delivery B) (e : WebhookEvent) (t : RunType)
      (st : Inbox C B)
      → e.run_type ≡ some t
      → ((redeliver_event env k s d e under st).0 ≡ ok tt)
        × Queued s st (redeliver_event env k s d e under st).1
  unfolding redeliver_event
  redeliver_event-some env k s d e t st n =
      rw (n, redeliver_event)
        (
          refl,
          (
            inserted env (record (event_run e t s) { worker_pool_id = none }) st.db,
            refl,
            refl,
            refl,
            event_job env t s (env.uuid st.db.serial),
            refl,
            refl,
            _,
            refl,
            refl,
            refl,
          ),
        )

  redeliver_event-Queued :
      (env : Env) (k : Caller) (s : Stack C) (d : Delivery B) (e : WebhookEvent) (q : QuotaCheck)
      (st : Inbox C B)
      → ((redeliver_event env k s d e q st).1 ≡ st)
        ⊎ ((q ≡ under)
            × ((redeliver_event env k s d e q st).0 ≡ ok tt)
            × Queued s st (redeliver_event env k s d e q st).1)
  unfolding redeliver_event
  redeliver_event-Queued env k s d e (exceeded limit active) st = inl refl
  redeliver_event-Queued env k s d e under st = elim (Option-cases e.run_type) [
    | inl n ↦ inl (rw (n, redeliver_event) refl)
    | inr (t, n) ↦ let (o, r) = redeliver_event-some env k s d e t st n in inr (refl, o, r)
  ]

  redeliver_parsed-Queued :
      (env : Env) (k : Caller) (s : Stack C) (d : Delivery B) (p : Option Parsed) (st : Inbox C B)
      → ((redeliver_parsed env k s d p st).1 ≡ st)
        ⊎ ((check_concurrent_quota k.org_id st.db ≡ under)
            × ((redeliver_parsed env k s d p st).0 ≡ ok tt)
            × Queued s st (redeliver_parsed env k s d p st).1)
  unfolding redeliver_parsed
  redeliver_parsed-Queued env k s d none st = inl refl
  redeliver_parsed-Queued env k s d (some invalid) st = inl refl
  redeliver_parsed-Queued env k s d (some ignored) st = inl refl
  redeliver_parsed-Queued env k s d (some (event e)) st =
      redeliver_event-Queued env k s d e (check_concurrent_quota k.org_id st.db) st

  -- what holds of the delivery that is found holds of the redelivery
  redeliver_found :
      (env : Env) (k : Caller) (W : Wire B) (id delivery_id : String) (st : Inbox C B) (s : Stack C)
      (d : Delivery B)
      → find_own_stack id k.org_id st.db ≡ some s
      → s.is_disabled ≡ false
      → find_delivery delivery_id s.id st ≡ some d
      → redeliver env k W id delivery_id st
        ≡ redeliver_parsed env k s d
            (reparse W d.arrival.forge d.arrival.event_type d.arrival.payload)
            st
  unfolding redeliver redeliver_row
  redeliver_found env k W id delivery_id st s d f n g =
      rw (f, redeliver)
        (if-cases
          (λ o.
            o
            ≡ redeliver_parsed env k s d
                (reparse W d.arrival.forge d.arrival.event_type d.arrival.payload) st)
          s.is_disabled (λ t. absurd (ground arith)) (λ t. rw g refl))

  -- a delivery that stands for a run is queued, whatever became of it
  pub redeliver-queues :
      (env : Env) (k : Caller) (W : Wire B) (id delivery_id : String) (st : Inbox C B) (s : Stack C)
      (d : Delivery B) (e : WebhookEvent) (t : RunType)
      → find_own_stack id k.org_id st.db ≡ some s
      → s.is_disabled ≡ false
      → find_delivery delivery_id s.id st ≡ some d
      → reparse W d.arrival.forge d.arrival.event_type d.arrival.payload ≡ some (event e)
      → e.run_type ≡ some t
      → check_concurrent_quota k.org_id st.db ≡ under
      → ((redeliver env k W id delivery_id st).0 ≡ ok tt)
        × Queued s st (redeliver env k W id delivery_id st).1
  unfolding redeliver_parsed
  redeliver-queues env k W id delivery_id st s d e t f n g r l q =
      rw (redeliver_found env k W id delivery_id st s d f n g)
        (rw r (rw q (redeliver_event-some env k s d e t st l)))

  -- the delivery that is recorded last is found by its own identifier
  pub delivery-found :
      (env : Env) (id : String) (a : Arrival B) (key : String) (st : Inbox C B)
      → find_delivery (env.uuid (length st.deliveries)) key st ≡ none
      → key ≡ id
      → find_delivery
          (env.uuid (length st.deliveries))
          key
          (record_delivery env id a "rejected" "bad_signature" none st)
        ≡ some (delivery_row env (length st.deliveries) id a "rejected" "bad_signature" none)
  delivery-found env id a key st u k =
      find?-append (λ d. str_eq d.id (env.uuid (length st.deliveries)) && str_eq d.stack_id key)
        st.deliveries
        (delivery_row env (length st.deliveries) id a "rejected" "bad_signature" none ∷ []) u
      ∙ rw k (
          ground (
            arith,
            eq_iff id id,
            eq_iff (env.uuid (length st.deliveries)) (env.uuid (length st.deliveries)),
          ))

  -- A redelivery changes nothing, or it is of an enabled stack of the caller's organisation, which is
  -- below its quota, and queues one run of it on the built-in worker, also where the stack has a
  -- worker pool, with one job and one delivery that names the run.
  pub redeliver-Queued :
      (env : Env) (k : Caller) (W : Wire B) (id delivery_id : String) (st : Inbox C B)
      → ((redeliver env k W id delivery_id st).1 ≡ st)
        ⊎ ((s : Stack C) × (find_own_stack id k.org_id st.db ≡ some s)
            × (s.is_disabled ≡ false)
            × (check_concurrent_quota k.org_id st.db ≡ under)
            × ((redeliver env k W id delivery_id st).0 ≡ ok tt)
            × Queued s st (redeliver env k W id delivery_id st).1)
  unfolding redeliver redeliver_row
  redeliver-Queued env k W id delivery_id st =
      elim (Option-cases (find_own_stack id k.org_id st.db)) [
        | inl f ↦ inl (rw (f, redeliver) refl)
        | inr (s, f) ↦ elim (Bool-cases s.is_disabled) [
          | inl n ↦ inl (rw (f, redeliver) (rw (n, redeliver_row) refl))
          | inr n ↦ elim (Option-cases (find_delivery delivery_id s.id st)) [
            | inl g ↦ inl (rw (f, redeliver) (rw (n, redeliver_row) (rw g refl)))
            | inr (d, g) ↦
                elim (redeliver_parsed-Queued env k s d
                  (reparse W d.arrival.forge d.arrival.event_type d.arrival.payload) st) [
                    | inl q ↦ inl (rw (redeliver_found env k W id delivery_id st s d f n g) q)
                    | inr (q, o, r) ↦ inr (
                      s,
                      f,
                      n,
                      q,
                      rw (redeliver_found env k W id delivery_id st s d f n g) o,
                      rw (redeliver_found env k W id delivery_id st s d f n g) r,
                    )
                  ]
          ]
        ]
      ]
