-- ===== src/Runs/Decisions.antt =====
-- The decisions that users, signed links and runner containers take on runs, as one type, and the
-- diagram of the statuses that they follow.
pub mod Rows
mod Steps
mod Approvals
pub mod Diagram
pub mod Refusals
pub mod Reports
use crucible_iap.Base.{String, Bool, true, false, List, [], ◌∷◌}
use crucible_iap.Db.{
  RunStatus, queued, preparing, planning, unconfirmed, pending_approval, confirmed, applying,
  finished, failed, canceled, discarded, Db,
}
use crucible_iap.Db.Env.{Env, Caller, Result}
use crucible_iap.Runs.Review
use crucible_iap.Runs.Control
use crucible_iap.Runs.Chatops.{chatops_action}
use crucible_iap.Runs.Internal.{report_status}

-- A request with its parameters: the run's id, and for a link its validity and action, for a report
-- the run of its token and the status.
pub data Decision : Type 0 where
  confirm approve discard cancel : Caller → String → Decision
  chatops : Bool → String → String → Decision
  report : String → String → String → Decision

module _ {C : Type 0} where
  unfoldable pub handle : Env → Decision → Db C → Result (Unit {0}) × Db C
  handle env (confirm c id) db = Review.confirm env c id db
  handle env (approve c id) db = Review.approve env c id db
  handle env (discard c id) db = Control.discard env c id db
  handle env (cancel c id) db = Control.cancel env c id db
  handle env (chatops valid id action) db = chatops_action env valid id action db
  handle env (report token_run id status) db = report_status token_run id status db

  -- any number of requests, one after the other, whatever each one answers
  unfoldable pub handle_all : Env → List Decision → Db C → Db C
  handle_all env [] db = db
  handle_all env (d ∷ rest) db = handle_all env rest (handle env d db).1

-- The diagram, with the diagonal: a status may always stay. The reports of a runner container
-- lead from every status that is not terminal.
abbrev pub edge : RunStatus → RunStatus → Bool
edge finished finished = true
edge finished _ = false
edge failed failed = true
edge failed _ = false
edge canceled canceled = true
edge canceled _ = false
edge discarded discarded = true
edge discarded _ = false
edge _ planning = true
edge _ applying = true
edge unconfirmed confirmed = true
edge unconfirmed discarded = true
edge unconfirmed canceled = true
edge unconfirmed unconfirmed = true
edge pending_approval unconfirmed = true
edge pending_approval confirmed = true
edge pending_approval discarded = true
edge pending_approval canceled = true
edge pending_approval pending_approval = true
edge queued canceled = true
edge queued queued = true
edge preparing canceled = true
edge preparing preparing = true
edge planning canceled = true
edge applying canceled = true
edge confirmed confirmed = true
edge _ _ = false
