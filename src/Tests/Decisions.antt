-- ===== src/Tests/Decisions.antt =====
-- Decisions on runs at concrete inputs.
use crucible_iap.Base.{ℕ, ◌<◌, ◌≤◌, ◌≡◌, refl, true, none, some, [], ◌∷◌, All₂, arith}
use crucible_iap.Db.{unconfirmed, pending_approval, canceled, applying, tracked, null, steps, Db}
use crucible_iap.Db.Query.{status_of}
use crucible_iap.Access.{may_act_on_run, resolve, stack_role_for_run, may_write}
use crucible_iap.Runs.Chain.{next_pending_step, record_chain_approval, is_approved, next_step}
use crucible_iap.Runs.Chain.Progress.{eligible-advances}
use crucible_iap.Runs.Review.{approve_with_chain}
use crucible_iap.Runs.Review.Effects.{with_chain_complete}
use crucible_iap.Runs.Control
use crucible_iap.Runs.Chatops.{chatops_action}
use crucible_iap.Runs.Chatops.Bypass.{chatops-approve_bypasses}
use crucible_iap.Runs.Internal.{report_status}
use crucible_iap.Runs.Decisions.{Decision, handle, handle_all}
use crucible_iap.Runs.Decisions.Rows.{Moves}
use crucible_iap.Runs.Decisions.Diagram.{handle-Moves, handle_all-terminal}
use crucible_iap.Runs.Decisions.Refusals.{handle-refused}
use crucible_iap.Runs.Decisions.Reports.{report-ungated}
use crucible_iap.Tests.Fixtures.{env, ann, run, stack, two_steps, one_step, db_of}

abbrev waiting : Db ℕ
waiting =
    db_of (run "r1" pending_approval tracked none ∷ run "r2" unconfirmed tracked none ∷ [])
      (stack null none)

abbrev chained : Db ℕ
chained = db_of (run "r1" pending_approval tracked none ∷ []) (stack (steps one_step) none)

abbrev stopped : Db ℕ
stopped = db_of (run "r1" canceled tracked none ∷ []) (stack null none)

handle-Moves_example :
    All₂ Moves waiting.runs (handle env (Decision.approve ann "r1") waiting).1.runs
handle-Moves_example = handle-Moves env (Decision.approve ann "r1") waiting ((refl, (refl, tt)))

handle_all-terminal_example :
    status_of "r1" (
      handle_all env
        (Decision.confirm ann "r1" ∷ Decision.report "r1" "r1" "applying" ∷ [])
        stopped)
    ≡ some canceled
handle_all-terminal_example =
    handle_all-terminal env (Decision.confirm ann "r1" ∷ Decision.report "r1" "r1" "applying" ∷ [])
      "r1" (run "r1" canceled tracked none) stopped (refl, tt) refl refl

handle-refused_example : (handle env (Decision.discard ann "r1") stopped).1 ≡ stopped
unfolding handle Control.discard may_act_on_run stack_role_for_run may_write resolve
handle-refused_example = handle-refused env (Decision.discard ann "r1") stopped 409 refl

with_chain_complete_example :
    is_approved "r1" 0 (approve_with_chain env ann "r1" one_step chained).1 ≡ true
unfolding approve_with_chain record_chain_approval next_pending_step
with_chain_complete_example =
    with_chain_complete env ann "r1" one_step chained refl refl 0 (omega arith)

chatops-approve_bypasses_example :
    status_of "r1" (chatops_action env true "r1" "approve" chained).1 ≡ some unconfirmed
chatops-approve_bypasses_example =
    (chatops-approve_bypasses env "r1" chained (run "r1" pending_approval tracked none) refl refl).1

report-ungated_example :
    status_of "r1" (report_status "r1" "r1" "applying" chained).1 ≡ some applying
report-ungated_example =
    (report-ungated "r1" chained (run "r1" pending_approval tracked none) refl refl).1

abbrev two_chained : Db ℕ
two_chained = db_of (run "r1" pending_approval tracked none ∷ []) (stack (steps two_steps) none)

eligible-advances_example :
    (n : ℕ) × ((record_chain_approval "r1" "ann" two_steps two_chained).0 ≡ next_step n)
    × (next_pending_step "r1" 2 two_chained < n)
    × (n ≤ 2)
    × (n ≡ next_pending_step "r1" 2 (record_chain_approval "r1" "ann" two_steps two_chained).1)
unfolding next_pending_step
eligible-advances_example =
    eligible-advances "r1" "ann" two_steps two_chained
      (record { name = "ops"; approver_user_ids = "ann" ∷ [] }) refl refl

abbrev unconfirmed_db : Db ℕ
unconfirmed_db = db_of (run "r2" unconfirmed tracked none ∷ []) (stack null none)
