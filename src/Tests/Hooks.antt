-- ===== src/Tests/Hooks.antt =====
-- The requests of webhooks and their previews at concrete inputs.
use crucible_iap.Webhooks.Gates.{dispatch_event-own_branch}
use crucible_iap.Webhooks.{
  skip_reason, dispatch_event, paths_match_any_glob, push_policy_skip_reason,
}
use crucible_iap.Base.{
  List, ℕ, String, ◌≡◌, ◌⊎◌, refl, true, false, ◌||◌, none, some, [], ◌∷◌, ◌++◌, str_eq,
  if◌then◌else◌, any, arith,
}
use crucible_iap.Db.{
  Stack, apply, tracked, destroy, Run, Job, proposed, typed, no_source, RunJobArgs,
}
use crucible_iap.Db.Env.{Caller, ok, http_error}
use crucible_iap.Runs.Finalize.{complete}
use crucible_iap.Db.Query.{find_stack}
use crucible_iap.Quotas.{under, check_concurrent_quota, count_active_runs}
use crucible_iap.Webhooks.Events.{
  WebhookEvent, GhPush, push_event, pr_event, closed_event, collect_changes, strip_prefix,
  trim_prefix, parse_github, first_line,
}
use crucible_iap.Webhooks.Events.Paths.{member, touches, Once, collect_changes-member}
use crucible_iap.Webhooks.Deliveries.{Delivery, Inbox, Payloads, trim_payload}
use crucible_iap.Webhooks.Verify.{
  Wire, Headers, has, detect_forge, extract_event_type, parse_and_verify, verify_github_sig,
}
use crucible_iap.Webhooks.Verify.Authentic.{is_genuine, parse_and_verify-is_genuine}
use crucible_iap.Webhooks.Previews.{handle_pr_close, maybe_spawn_preview}
use crucible_iap.Webhooks.Previews.Lifecycle.{
  Single, maybe_spawn_preview-Single, handle_pr_close-deletes,
}
use crucible_iap.Webhooks.Receive.{receive, reparse, redeliver, find_own_stack}
use crucible_iap.Webhooks.Receive.Recorded.{Answered, receive-Recorded}
use crucible_iap.Webhooks.Receive.Again.{Queued, redeliver-Queued}
use crucible_iap.Webhooks.Receive.Forged.{redeliver-rejected}
use crucible_iap.Tests.Fixtures.{env, nat_cost}
use crucible_iap.Tests.Events.{compile, texts, decimal, hook, preview, net, inbox, arrival}

abbrev payloads : Payloads String
payloads = record {
  size = λ b. 4;
  valid = λ b. true;
  truncated = λ n. "truncated";
  raw = λ b. b;
  empty = "{}";
}

abbrev gh_push : GhPush
gh_push = record {
  ref = "refs/heads/main";
  head_id = "c0";
  head_message = "grow";
  head = record { added = "main.tf" ∷ []; modified = []; removed = [] };
  commits = (record { added = "main.tf" ∷ []; modified = "a.tf" ∷ []; removed = [] }) ∷ [];
  sender = "ann";
}

-- the HMAC of any body is the secret, and a body of Bitbucket is a pull request
abbrev wire : Wire String
wire = record {
  gh_push = λ b. some gh_push;
  gh_pr = λ b. none;
  gl_push = λ b. none;
  gl_mr = λ b. none;
  bb_push = λ b. none;
  bb_pr = λ b. some (record { id = 7; title = "grow"; branch = "b"; hash = "c1"; href = "u" });
  ado_kind = λ b. none;
  ado_push = λ b. none;
  ado_pr = λ b. none;
  mac = λ secret b. secret;
  base64 = λ s. none;
}

-- the headers of a push with a signature of GitHub
abbrev github : String → Headers
github sig name =
    if str_eq name "X-Hub-Signature-256"
    then sig
    else if str_eq name "X-GitHub-Event"
    then "push"
    else ""

abbrev bitbucket : Headers
bitbucket name = if str_eq name "X-Event-Key" then "pullrequest:created" else ""

collect_changes-member_example :
    ((p : String)
      → member p (collect_changes gh_push)
        ≡ (touches p gh_push.head || any (touches p) gh_push.commits))
    × Once (collect_changes gh_push)
collect_changes-member_example = collect_changes-member gh_push

parse_and_verify-is_genuine_example :
    (is_genuine wire (github "sha256=s3cret") "push" "s3cret" ≡ true)
    ⊎ ((has (github "sha256=s3cret") "X-Event-Key" ≡ true)
        × (has (github "sha256=s3cret") "X-Hub-Signature" ≡ false))
unfolding parse_and_verify verify_github_sig parse_github trim_prefix strip_prefix
parse_and_verify-is_genuine_example =
    parse_and_verify-is_genuine wire (github "sha256=s3cret") "push" "s3cret" (λ e. ground arith)

receive-Recorded_example :
    Answered wire (github "sha256=s3cret") "push" (some "s3cret") "net" inbox (
      receive compile texts decimal env "new" payloads wire
        (github "sha256=s3cret")
        "push"
        "net"
        inbox)
receive-Recorded_example =
    receive-Recorded compile texts decimal env "new" payloads wire (github "sha256=s3cret") "push"
      "net" inbox net hook refl refl

-- a member of the organisation
abbrev insider : Caller
insider = record { user_id = "ann"; org_id = "acme"; sa_role = "" }

redeliver-rejected_example :
    let left =
      receive compile texts decimal env "new" payloads wire
        (github "sha256=forged")
        "push"
        "net"
        inbox in
    let again = redeliver env insider wire "net" "run-new" left.1 in
    (left.0 ≡ http_error 401) × (again.0 ≡ ok tt) × Queued net left.1 again.1
unfolding parse_and_verify verify_github_sig parse_github trim_prefix strip_prefix reparse
    detect_forge extract_event_type trim_payload check_concurrent_quota count_active_runs first_line
    collect_changes
redeliver-rejected_example =
    redeliver-rejected compile texts decimal env env insider "new" payloads wire
      (github "sha256=forged") "push" "net" inbox net hook
      (push_event "main" "c0" "grow" ("main.tf" ∷ "a.tf" ∷ []) "ann") tracked
      (refl, refl, refl, "s3cret", refl, refl, refl) refl refl refl refl refl

-- the tables with the delivery of a push
abbrev delivered : Inbox ℕ String
delivered =
    (receive compile texts decimal env "new" payloads wire (github "sha256=s3cret") "push" "net"
      inbox).1

redeliver-Queued_example :
    ((redeliver env insider wire "net" "run-new" delivered).1 ≡ delivered)
    ⊎ ((s : Stack ℕ) × (find_own_stack "net" "acme" delivered.db ≡ some s)
        × (s.is_disabled ≡ false)
        × (check_concurrent_quota "acme" delivered.db ≡ under)
        × ((redeliver env insider wire "net" "run-new" delivered).0 ≡ ok tt)
        × Queued s delivered (redeliver env insider wire "net" "run-new" delivered).1)
redeliver-Queued_example = redeliver-Queued env insider wire "net" "run-new" delivered

abbrev opened : WebhookEvent
opened = pr_event "b" "c1" "grow" 7 "u" "ann"

dispatch_event-own_branch_example :
    (j : RunJobArgs) × (previews : List Job) × ((dispatch_event compile texts decimal env "new"
        "net" arrival opened inbox).1.db.jobs
      ≡ [] ++ (record { args = j; scheduled_at = none }) ∷ previews)
    × (j.run_type ≡ typed proposed)
    × (j.source ≡ no_source)
unfolding skip_reason paths_match_any_glob push_policy_skip_reason check_concurrent_quota
    count_active_runs
dispatch_event-own_branch_example =
    dispatch_event-own_branch compile texts decimal env "new" "net" arrival opened proposed inbox
      net hook (refl, refl, refl, refl, refl, refl) refl refl

one_hook : Single inbox
one_hook source number = ground arith

maybe_spawn_preview-Single_example :
    Single (maybe_spawn_preview env decimal opened net hook "new" inbox)
maybe_spawn_preview-Single_example =
    maybe_spawn_preview-Single env decimal opened net hook "new" inbox one_hook

-- the stack with the preview of its pull request 7
abbrev previewed : Inbox ℕ String
previewed = record inbox {
  db = record inbox.db { stacks = net ∷ (record net { id = "pre" }) ∷ [] };
  hooks = hook ∷ preview ∷ [];
}

abbrev ending : RunJobArgs
ending = record {
  run_id = "apply";
  stack_id = "pre";
  source = net.source;
  run_type = apply;
  api_url = "";
  auto_apply = false;
  var_overrides = [];
}

handle_pr_close-deletes_example :
    let out = handle_pr_close env net arrival (closed_event 7 "u" "b") previewed in
    (out.0 ≡ ok tt)
    × ((new : Run ℕ) × (out.1.db.runs ≡ [] ++ new ∷ [])
        × (new.stack_id ≡ "pre")
        × (new.type ≡ destroy)
        × (j : Job) × (out.1.db.jobs ≡ [] ++ j ∷ [])
        × (j.args.run_id ≡ new.id)
        × (j.args.auto_apply ≡ false)
        × (d : Delivery String) × (out.1.deliveries ≡ [] ++ d ∷ [])
        × (d.run_id ≡ some new.id))
    × (find_stack "pre" (complete ⦃F = nat_cost⦄ none env "acme" ending out.1.db).1 ≡ none)
handle_pr_close-deletes_example =
    handle_pr_close-deletes ⦃F = nat_cost⦄ none env env "acme" ending net arrival
      (closed_event 7 "u" "b") previewed preview (record net { id = "pre" })
      (handle_pr_close env net arrival (closed_event 7 "u" "b") previewed).1.db refl refl refl refl
      refl
