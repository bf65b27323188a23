-- ===== src/Runs/Status.antt =====
-- The tests on a run's status that the WHERE clauses of the statements make.
use crucible_iap.Base.{String, Bool, true, false}
use crucible_iap.Db.{
  RunStatus, queued, preparing, planning, unconfirmed, pending_approval, confirmed, applying,
  finished, failed, canceled, discarded, RunType, destroy,
}

abbrev pub is_unconfirmed : RunStatus → Bool
is_unconfirmed unconfirmed = true
is_unconfirmed _ = false

abbrev pub is_pending_approval : RunStatus → Bool
is_pending_approval pending_approval = true
is_pending_approval _ = false

-- status IN ('unconfirmed', 'pending_approval')
abbrev pub awaits_decision : RunStatus → Bool
awaits_decision unconfirmed = true
awaits_decision pending_approval = true
awaits_decision _ = false

-- status IN ('finished', 'failed', 'canceled', 'discarded')
abbrev pub is_terminal : RunStatus → Bool
is_terminal finished = true
is_terminal failed = true
is_terminal canceled = true
is_terminal discarded = true
is_terminal _ = false

-- status IN ('queued', 'preparing', 'planning', 'applying', 'unconfirmed', 'pending_approval'):
-- what `Cancel` may stop, what counts toward a quota, and what holds back a downstream stack
abbrev pub is_active : RunStatus → Bool
is_active queued = true
is_active preparing = true
is_active planning = true
is_active applying = true
is_active unconfirmed = true
is_active pending_approval = true
is_active _ = false

abbrev pub is_preparing : RunStatus → Bool
is_preparing preparing = true
is_preparing _ = false

abbrev pub is_finished : RunStatus → Bool
is_finished finished = true
is_finished _ = false

-- status IN ('queued', 'confirmed')
abbrev pub is_claimable : RunStatus → Bool
is_claimable queued = true
is_claimable confirmed = true
is_claimable _ = false

abbrev pub is_confirmed : RunStatus → Bool
is_confirmed confirmed = true
is_confirmed _ = false

abbrev pub is_destroy : RunType → Bool
is_destroy destroy = true
is_destroy _ = false

-- the labels of the enum, which the audit actions are built from
abbrev pub status_name : RunStatus → String
status_name queued = "queued"
status_name preparing = "preparing"
status_name planning = "planning"
status_name unconfirmed = "unconfirmed"
status_name pending_approval = "pending_approval"
status_name confirmed = "confirmed"
status_name applying = "applying"
status_name finished = "finished"
status_name failed = "failed"
status_name canceled = "canceled"
status_name discarded = "discarded"
