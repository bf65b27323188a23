-- ===== src/Tests/Agents.antt =====
-- Claims and completions of an external agent at concrete inputs.
use crucible_iap.Base.{ℕ, ◌≡◌, none, ◌≢◌, refl, true, some, [], ◌∷◌}
use crucible_iap.Db.{preparing, confirmed, tracked, null, typed, apply, no_source, Db}
use crucible_iap.Db.Env.{http_error}
use crucible_iap.Runs.Internal.{report, report_status, reportable}
use crucible_iap.Agent.{JobSpec, oldest_waiting, claim, finish}
use crucible_iap.Agent.Phases.{claim-never_apply, finish-reported}
use crucible_iap.Tests.Fixtures.{nat_cost, env, run, stack, db_of}

abbrev pooled : Db ℕ
pooled = db_of (run "r1" confirmed tracked (some "pool") ∷ []) (stack null (some "pool"))

abbrev spec : JobSpec
spec = record {
  run_id = "r1";
  stack_id = "net";
  source = no_source;
  run_type = typed tracked;
  auto_apply = true;
  var_overrides = "REGION=eu" ∷ [];
  api_url = "https://api";
}

claim-never_apply_example : spec.run_type ≢ apply
unfolding claim oldest_waiting
claim-never_apply_example = claim-never_apply env "pool" pooled {spec = spec} refl

abbrev running : Db ℕ
running = db_of (run "r1" preparing tracked (some "pool") ∷ []) (stack null (some "pool"))

finish-reported_example :
    (finish ⦃F = nat_cost⦄ none env "pool" "r1" true
      (report_status "r1" "r1" "planning" running).1).0
    ≡ http_error 404
unfolding report_status report reportable
finish-reported_example =
    finish-reported ⦃F = nat_cost⦄ none env "pool" "r1" "planning" true running refl
