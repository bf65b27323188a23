-- ===== src/Webhooks/Receive.antt =====
-- internal/webhooks/handler.go: `Receive`, `DispatchGitHubEvent`, `Redeliver` and `RotateSecret`. A
-- body that cannot be read to its end, and a column that does not fit its type, are left out.
pub mod Recorded
pub mod Again
pub mod Forged
use crucible_iap.Base.{
  ℕ, String, Bool, true, false, not, ◌&&◌, ◌||◌, Option, none, some, List, [], ◌∷◌, ◌++◌, str_eq,
  str_append, if◌then◌else◌, find?, any, update_where,
}
use crucible_iap.Db.{RunType, Stack, Db}
use crucible_iap.Db.Env.{Env, Caller, Result, ok, http_error}
use crucible_iap.Db.Query.{find_stack, insert_run, enqueue_run}
use crucible_iap.Quotas.{QuotaCheck, under, exceeded, check_concurrent_quota}
use crucible_iap.Webhooks.{Texts, event_job, event_run, dispatch_event, dispatch_on}
use crucible_iap.Webhooks.Events.{WebhookEvent, Parsed, invalid, ignored, event, parse_github}
use crucible_iap.Webhooks.Gitlab.{parse_gitlab}
use crucible_iap.Webhooks.Forges.{parse_bitbucket, parse_azure_devops}
use crucible_iap.Webhooks.Verify.{
  Wire, Headers, detect_forge, extract_event_type, extract_delivery_id, parse_and_verify,
}
use crucible_iap.Webhooks.Deliveries.{
  Hook, Arrival, Delivery, Inbox, Payloads, trim_payload, record_delivery, skip, find_hook,
}

abbrev pub arrival_of : {B : Type 0} → Headers → B → Arrival B
arrival_of hd payload = record {
  forge = detect_forge hd;
  event_type = extract_event_type hd;
  delivery_id = extract_delivery_id hd;
  payload = payload;
}

module _ (compile : String → Option (String → Bool)) (T : Texts) (decimal : ℕ → String)
    {C B : Type 0} where
  unfoldable pub receive_parsed :
      Env → String → String → Arrival B → Parsed → Inbox C B → Result (Unit {0}) × Inbox C B
  receive_parsed env fresh id a invalid st =
      (http_error 401, record_delivery env id a "rejected" "bad_signature" none st)
  receive_parsed env fresh id a ignored st = skip env id a "unknown_event" st
  receive_parsed env fresh id a (event e) st = dispatch_event compile T decimal env fresh id a e st

  -- a secret that is missing or empty is none
  unfoldable pub receive_with :
      Env
      → String
      → Payloads B
      → Wire B
      → Headers
      → B
      → Option String
      → String
      → Inbox C B
      → Result (Unit {0}) × Inbox C B
  unfolding receive_parsed
  receive_with env fresh P W hd body none id st = (
    http_error 401,
    record_delivery env id (arrival_of hd P.empty) "rejected" "no_secret" none st,
  )
  receive_with env fresh P W hd body (some secret) id st =
      if str_eq secret ""
      then (
        http_error 401,
        record_delivery env id (arrival_of hd P.empty) "rejected" "no_secret" none st,
      )
      else receive_parsed env fresh id (arrival_of hd (trim_payload P body))
          (parse_and_verify W hd body secret) st

  unfoldable pub receive_row :
      Env
      → String
      → Payloads B
      → Wire B
      → Headers
      → B
      → Option (Stack C)
      → Option Hook
      → String
      → Inbox C B
      → Result (Unit {0}) × Inbox C B
  unfolding receive_with
  receive_row env fresh P W hd body none h id st = (http_error 404, st)
  receive_row env fresh P W hd body (some s) none id st = (http_error 404, st)
  receive_row env fresh P W hd body (some s) (some h) id st =
      if s.is_disabled
      then skip env id (arrival_of hd P.empty) "stack_disabled" st
      else receive_with env fresh P W hd body h.webhook_secret id st

  -- `Receive`; `fresh` is drawn where a preview stack is made
  unfoldable pub receive :
      Env
      → String
      → Payloads B
      → Wire B
      → Headers
      → B
      → String
      → Inbox C B
      → Result (Unit {0}) × Inbox C B
  unfolding receive_row
  receive env fresh P W hd body id st =
      receive_row env fresh P W hd body (find_stack id st.db) (find_hook id st) id st

  unfoldable pub dispatch_parsed :
      Env → String → String → Arrival B → Parsed → Inbox C B → Result (Unit {0}) × Inbox C B
  dispatch_parsed env fresh id a invalid st = (http_error 500, st)
  dispatch_parsed env fresh id a ignored st = (ok tt, st)
  dispatch_parsed env fresh id a (event e) st = dispatch_event compile T decimal env fresh id a e st

  -- `DispatchGitHubEvent`
  unfoldable pub dispatch_github_event :
      Env
      → String
      → Payloads B
      → Wire B
      → String
      → String
      → String
      → B
      → Inbox C B
      → Result (Unit {0}) × Inbox C B
  unfolding dispatch_parsed
  dispatch_github_event env fresh P W id kind delivery_id body st =
      dispatch_parsed env fresh id
        (record {
          forge = "github";
          event_type = kind;
          delivery_id = delivery_id;
          payload = trim_payload P body;
        })
        (parse_github kind (W.gh_push body) (W.gh_pr body)) st

-- the event of a payload that is stored; none where the forge is not supported
unfoldable pub reparse : {B : Type 0} → Wire B → String → String → B → Option Parsed
reparse W forge kind body =
    if str_eq forge "github" || str_eq forge "gitea" || str_eq forge "gogs"
    then some (parse_github kind (W.gh_push body) (W.gh_pr body))
    else if str_eq forge "gitlab"
    then some (parse_gitlab kind (W.gl_push body) (W.gl_mr body))
    else if str_eq forge "bitbucket"
    then some (parse_bitbucket kind (W.bb_push body) (W.bb_pr body))
    else if str_eq forge "azure_devops"
    then some (parse_azure_devops (W.ado_kind body) (W.ado_push body) (W.ado_pr body))
    else none

abbrev pub find_own_stack : {C : Type 0} → String → String → Db C → Option (Stack C)
find_own_stack id org db = find? (λ s. str_eq s.id id && str_eq s.org_id org) db.stacks

module _ {C B : Type 0} where
  abbrev pub find_delivery : String → String → Inbox C B → Option (Delivery B)
  find_delivery id stack_id st =
      find? (λ d. str_eq d.id id && str_eq d.stack_id stack_id) st.deliveries

  unfoldable pub redeliver_event :
      Env
      → Caller
      → Stack C
      → Delivery B
      → WebhookEvent
      → QuotaCheck
      → Inbox C B
      → Result (Unit {0}) × Inbox C B
  redeliver_event env k s d e (exceeded limit active) st = (http_error 429, st)
  redeliver_event env k s d e under st = elim e.run_type [
    | none ↦ (http_error 500, st)
    | some t ↦ (
      ok tt,
      record_delivery env s.id (record d.arrival { delivery_id = str_append "redeliver:" d.id })
          "triggered" "" (some (env.uuid st.db.serial))
          (record st {
            db =
                enqueue_run (event_job env t s (env.uuid st.db.serial))
                  (insert_run env (record (event_run e t s) { worker_pool_id = none }) st.db);
          }),
    )
  ]

  unfoldable pub redeliver_parsed :
      Env
      → Caller
      → Stack C
      → Delivery B
      → Option Parsed
      → Inbox C B
      → Result (Unit {0}) × Inbox C B
  unfolding redeliver_event
  redeliver_parsed env k s d none st = (http_error 422, st)
  redeliver_parsed env k s d (some invalid) st = (http_error 422, st)
  redeliver_parsed env k s d (some ignored) st = (http_error 422, st)
  redeliver_parsed env k s d (some (event e)) st =
      redeliver_event env k s d e (check_concurrent_quota k.org_id st.db) st

  unfoldable pub redeliver_row :
      Env → Caller → Wire B → Option (Stack C) → String → Inbox C B → Result (Unit {0}) × Inbox C B
  unfolding redeliver_parsed
  redeliver_row env k W none delivery_id st = (http_error 404, st)
  redeliver_row env k W (some s) delivery_id st =
      if s.is_disabled then (http_error 409, st) else (elim (find_delivery delivery_id s.id st) [
        | none ↦ (http_error 404, st)
        | some d ↦
            redeliver_parsed env k s d
              (reparse W d.arrival.forge d.arrival.event_type d.arrival.payload) st
      ])

  -- `Redeliver`
  unfoldable pub redeliver :
      Env → Caller → Wire B → String → String → Inbox C B → Result (Unit {0}) × Inbox C B
  unfolding redeliver_row
  redeliver env k W id delivery_id st =
      redeliver_row env k W (find_own_stack id k.org_id st.db) delivery_id st

  -- `RotateSecret`, with the secret that is drawn
  unfoldable pub rotate_secret : Caller → String → String → Inbox C B → Result String × Inbox C B
  rotate_secret k id secret st =
      if any (λ s. str_eq s.id id && str_eq s.org_id k.org_id) st.db.stacks
      then (
        ok secret,
        record st {
          hooks =
              update_where (λ h. str_eq h.stack_id id)
                (λ h. record h { webhook_secret = some secret }) st.hooks;
        },
      )
      else (http_error 404, st)
