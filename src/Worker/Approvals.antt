-- ===== src/Worker/Approvals.antt =====
-- internal/worker/approval_expiry.go and approval_escalation.go: the passes over the runs that wait
-- for a decision.
pub mod Passes
use crucible_iap.Base.{
  ℕ, suc, ◌+◌, ◌*◌, String, Bool, true, false, not, ◌&&◌, Option, none, some, List, [], ◌∷◌, ltb,
  if◌then◌else◌, keep, is_some,
}
use crucible_iap.Base.Int.{ℤ, pos, negsuc}
use crucible_iap.Db.{discarded, Run, Stack, Event, Notice, escalation_alert, Db}
use crucible_iap.Db.Env.{Env}
use crucible_iap.Db.Query.{find_stack, update_runs, audit, notify}
use crucible_iap.Runs.Status.{awaits_decision}

-- audit.Event of the background loops
abbrev pub system_event : String → String → String → Event
system_event org action id = record {
  actor_id = "";
  actor_type = "system";
  action = action;
  resource_id = id;
  org_id = org;
}

module _ {C : Type 0} where
  -- the WHERE of the expiry; the columns count seconds
  abbrev pub is_expired : Env → ℕ → Run C → Bool
  is_expired env hours r = awaits_decision r.status && ltb (r.queued_at + hours * 3600) env.now

  abbrev pub set_discarded : Env → Run C → Run C
  set_discarded env r = record r { status = discarded; finished_at = some env.now }

  -- An event for each expired run, if its stack is there.
  unfoldable pub log_expired : List (Run C) → Db C → Db C
  log_expired [] db = db
  log_expired (r ∷ rest) db = log_expired rest (elim (find_stack r.stack_id db) [
    | none ↦ db
    | some s ↦ audit (system_event s.org_id "run.approval_expired" r.id) db
  ])

  unfoldable pub expire : Env → ℕ → Db C → Db C
  unfolding log_expired
  expire env hours db =
      log_expired (keep (is_expired env hours) db.runs)
        (update_runs (is_expired env hours) (set_discarded env) db)

  -- `runApprovalExpiry`, with the setting approval_timeout_hours; none is the failed query
  unfoldable pub run_approval_expiry : Option ℤ → Env → Db C → Db C
  unfolding expire
  run_approval_expiry none env db = db
  run_approval_expiry (some (negsuc n)) env db = db
  run_approval_expiry (some (pos hours)) env db = if ltb 0 hours then expire env hours db else db

  -- the minutes after which the stack of a run has its waiting runs escalated
  abbrev pub escalation_minutes : Run C → Db C → Option ℕ
  escalation_minutes r db = elim (find_stack r.stack_id db) [
    | none ↦ none
    | some s ↦ s.escalation_after_minutes
  ]

  -- the WHERE of the escalation, in the tables `db`
  abbrev pub is_escalated : Env → Db C → Run C → Bool
  is_escalated env db r =
      awaits_decision r.status && not (is_some r.escalated_at) && (elim (escalation_minutes r db) [
        | none ↦ false
        | some m ↦ ltb (r.queued_at + m * 60) env.now
      ])

  abbrev pub set_escalated : Env → Run C → Run C
  set_escalated env r = record r { escalated_at = some env.now }

  -- the alert and the event of each row that the update returned
  unfoldable pub alert_escalated : List (Run C) → Db C → Db C
  alert_escalated [] db = db
  alert_escalated (r ∷ rest) db = alert_escalated rest (elim (find_stack r.stack_id db) [
    | none ↦ db
    | some s ↦ elim s.escalation_after_minutes [
      | none ↦ db
      | some m ↦
          audit (system_event s.org_id "run.escalated" r.id) (notify (escalation_alert r.id m) db)
    ]
  ])

  -- `runApprovalEscalation`
  unfoldable pub run_approval_escalation : Env → Db C → Db C
  unfolding alert_escalated
  run_approval_escalation env db =
      alert_escalated (keep (is_escalated env db) db.runs)
        (update_runs (is_escalated env db) (set_escalated env) db)
