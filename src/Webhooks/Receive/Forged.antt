-- ===== src/Webhooks/Receive/Forged.antt =====
-- What becomes of a request that is turned away.
use crucible_iap.Base.{
  ℕ, String, ◌≡◌, refl, Bool, false, Option, none, some, arith, str_eq, eq_iff, find?-passes,
  if-cases, length,
}
use crucible_iap.Db.{RunType, Stack}
use crucible_iap.Db.Env.{Env, Caller, ok, http_error}
use crucible_iap.Db.Query.{find_stack}
use crucible_iap.Quotas.{under, check_concurrent_quota}
use crucible_iap.Webhooks.{Texts}
use crucible_iap.Webhooks.Events.{WebhookEvent, invalid, event}
use crucible_iap.Webhooks.Deliveries.{
  Hook, Inbox, Payloads, trim_payload, delivery_row, record_delivery, find_hook,
}
use crucible_iap.Webhooks.Verify.{Wire, Headers, detect_forge, extract_event_type, parse_and_verify}
use crucible_iap.Webhooks.Receive.{
  arrival_of, receive_parsed, receive_with, receive_row, receive, reparse, find_own_stack,
  find_delivery, redeliver,
}
use crucible_iap.Webhooks.Receive.Again.{Queued, redeliver-queues, delivery-found}

-- a request that fails the check of the webhook of an enabled stack
abbrev pub Refused :
    {C B : Type 0} → Wire B → Headers → B → String → Inbox C B → Stack C → Hook → Type 0
Refused W hd body id st s h =
    (find_stack id st.db ≡ some s)
    × (find_hook id st ≡ some h)
    × (s.is_disabled ≡ false)
    × (secret : String) × (h.webhook_secret ≡ some secret)
    × (str_eq secret "" ≡ false)
    × (parse_and_verify W hd body secret ≡ invalid)

module _ (compile : String → Option (String → Bool)) (T : Texts) (decimal : ℕ → String)
    {C B : Type 0} where
  receive-rejects :
      (env : Env) (fresh : String) (P : Payloads B) (W : Wire B) (hd : Headers) (body : B)
      (id : String) (st : Inbox C B) (s : Stack C) (h : Hook)
      → Refused W hd body id st s h
      → receive compile T decimal env fresh P W hd body id st ≡ (
        http_error 401,
        record_delivery env id
            (arrival_of hd (trim_payload P body))
            "rejected"
            "bad_signature"
            none
            st,
      )
  unfolding receive receive_row receive_with receive_parsed
  receive-rejects env fresh P W hd body id st s h (f, g, n, secret, x, y, i) =
      rw (f, receive)
        (rw (g, receive_row)
          (if-cases
            (λ o. o ≡ (
              http_error 401,
              record_delivery env id (arrival_of hd (trim_payload P body)) "rejected"
                  "bad_signature" none st,
            ))
            s.is_disabled (λ t. absurd (ground arith))
            (λ t. rw (x, receive_with) (rw y (rw i refl)))))

  -- A request that fails the check of the webhook of an enabled stack is answered 401. A member of
  -- the organisation can redeliver what it left: where the stored payload parses as an event with a
  -- run type, and the organisation is below its quota, a run of the stack is queued for it.
  pub redeliver-rejected :
      (env later : Env) (k : Caller) (fresh : String) (P : Payloads B) (W : Wire B) (hd : Headers)
      (body : B) (id : String) (st : Inbox C B) (s : Stack C) (h : Hook) (e : WebhookEvent)
      (t : RunType)
      → Refused W hd body id st s h
      → find_own_stack id k.org_id st.db ≡ some s
      → find_delivery (env.uuid (length st.deliveries)) s.id st ≡ none
      → reparse W (detect_forge hd) (extract_event_type hd) (trim_payload P body) ≡ some (event e)
      → e.run_type ≡ some t
      → check_concurrent_quota k.org_id st.db ≡ under
      → let left = receive compile T decimal env fresh P W hd body id st in
        let again = redeliver later k W id (env.uuid (length st.deliveries)) left.1 in
        (left.0 ≡ http_error 401) × (again.0 ≡ ok tt) × Queued s left.1 again.1
  redeliver-rejected env later k fresh P W hd body id st s h e t v o u r l q =
      let a = arrival_of hd (trim_payload P body) in
      let (x, y) =
        redeliver-queues later k W id (env.uuid (length st.deliveries))
          (record_delivery env id a "rejected" "bad_signature" none st) s
          (delivery_row env (length st.deliveries) id a "rejected" "bad_signature" none) e t o v.2
          (delivery-found env id a s.id st u
            ((eq_iff s.id id).0 (find?-passes (λ s. str_eq s.id id) st.db.stacks {a = s} v.0)))
          r l q in
      rw (receive-rejects env fresh P W hd body id st s h v) (refl, x, y)
