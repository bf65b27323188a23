-- ===== src/Runs/Decisions/Steps.antt =====
-- The handlers that make at most one update, row by row.
use crucible_iap.Base.{
  String, ◌≡◌, Bool, ◌&&◌, some, inl, inr, arith, str_eq, update_where, All₂, Bool-cases,
  Option-cases, find?, ◌⊎◌, any,
}
use crucible_iap.Db.{RunStatus, planning, applying, discarded, canceled, Db}
use crucible_iap.Db.Env.{Env, Caller}
use crucible_iap.Access.{may_act_on_run}
use crucible_iap.Runs.Status.{is_unconfirmed, is_active}
use crucible_iap.Runs.Review
use crucible_iap.Runs.Review.{
  is_run, is_service, auto_applies, set_confirmed, set_approved, enqueue_apply, approve_step_done,
  approve_by, approve_found, approve_with_chain,
}
use crucible_iap.Runs.Control
use crucible_iap.Runs.Chatops.{
  ChatAction, chatops_action, perform, chat_action, allows, decide, follow_up,
}
use crucible_iap.Runs.Internal.{report, report_status, reportable, reports}
use crucible_iap.Runs.Decisions.Rows.{Moves, All₂-refl, Updated, Moves-of_Updated}

-- a container reports planning or applying
pub reportable_iff :
    (s : String) {st : RunStatus} → reportable s ≡ some st → (st ≡ planning) ⊎ (st ≡ applying)
unfolding reportable
reportable_iff s {st} h = ground arith

module _ {C : Type 0} where
  pub confirm-Updated :
      (env : Env) (c : Caller) (id : String) (db : Db C)
      → Updated
          (λ x. is_run id x && is_unconfirmed x.status)
          (set_confirmed env (some c.user_id))
          db
          (Review.confirm env c id db).1
  unfolding Updated Review.confirm
  confirm-Updated env c id db = elim (Bool-cases (may_act_on_run c id db)) [
    | inr e ↦ inl (ground arith)
    | inl e ↦ elim (Bool-cases (is_service c)) [
      | inl v ↦ inl (ground arith)
      | inr v ↦ elim (Option-cases (find? (λ x. is_run id x && is_unconfirmed x.status) db.runs)) [
        | inl f ↦ inl (ground arith)
        | inr (r, f) ↦ inr (ground arith)
      ]
    ]
  ]

  pub discard-Updated :
      (env : Env) (c : Caller) (id : String) (db : Db C)
      → Updated
          (λ x. is_run id x && is_unconfirmed x.status)
          (λ x. record x { status = discarded })
          db
          (Control.discard env c id db).1
  unfolding Updated Control.discard
  discard-Updated env c id db = elim (Bool-cases (may_act_on_run c id db)) [
    | inr e ↦ inl (ground arith)
    | inl e ↦ elim (Bool-cases (any (λ x. is_run id x && is_unconfirmed x.status) db.runs)) [
      | inl f ↦ inr (ground arith)
      | inr f ↦ inl (ground arith)
    ]
  ]

  pub cancel-Updated :
      (env : Env) (c : Caller) (id : String) (db : Db C)
      → Updated
          (λ x. is_run id x && is_active x.status)
          (λ x. record x { status = canceled })
          db
          (Control.cancel env c id db).1
  unfolding Updated Control.cancel
  cancel-Updated env c id db = elim (Bool-cases (may_act_on_run c id db)) [
    | inr e ↦ inl (ground arith)
    | inl e ↦ elim (Bool-cases (any (λ x. is_run id x && is_active x.status) db.runs)) [
      | inl f ↦ inr (ground arith)
      | inr f ↦ inl (ground arith)
    ]
  ]

  pub follow_up-runs :
      (env : Env) (a : ChatAction) (id : String) (db : Db C)
      → (follow_up env a id db).runs ≡ db.runs
  follow_up-runs env a id db = ground arith

  pub perform-Updated :
      (env : Env) (id name : String) (a : ChatAction) (db : Db C)
      → Updated (λ x. is_run id x && allows a x) (decide env a) db (perform env id name a db).1
  unfolding Updated perform
  perform-Updated env id name a db =
      elim (Bool-cases (any (λ x. is_run id x && allows a x) db.runs)) [
        | inl f ↦ inr (
            ground (
              arith,
              follow_up-runs env a id (record db {
                runs = update_where (λ x. is_run id x && allows a x) (decide env a) db.runs;
              }),
            ))
        | inr f ↦ inl (ground arith)
      ]

  pub perform-Moves :
      (env : Env) (id name : String) (a : ChatAction) (db : Db C)
      → All₂ Moves db.runs (perform env id name a db).1.runs
  perform-Moves env id name a db =
      Moves-of_Updated (λ x. is_run id x && allows a x) (decide env a) db
        (perform env id name a db).1 (λ r h. (ground arith, ground arith))
        (perform-Updated env id name a db)

  pub chatops-Moves :
      (env : Env) (valid : Bool) (id name : String) (db : Db C)
      → All₂ Moves db.runs (chatops_action env valid id name db).1.runs
  unfolding chatops_action
  chatops-Moves env valid id name db = elim (Option-cases (chat_action name)) [
    | inl e ↦ rw (e, chatops_action) (All₂-refl db.runs)
    | inr (a, e) ↦ elim (Bool-cases valid) [
      | inl v ↦ rw (e, chatops_action) (rw v (perform-Moves env id name a db))
      | inr v ↦ rw (e, chatops_action) (rw v (All₂-refl db.runs))
    ]
  ]

  pub report-Updated :
      (id : String) (st : RunStatus) (db : Db C)
      → Updated (reports id) (λ x. record x { status = st }) db (report id st db).1
  unfolding Updated report
  report-Updated id st db = elim (Bool-cases (any (reports id) db.runs)) [
    | inl f ↦ inr (ground arith)
    | inr f ↦ inl (ground arith)
  ]

  pub report_status-Moves :
      (token id name : String) (db : Db C)
      → All₂ Moves db.runs (report_status token id name db).1.runs
  unfolding report_status
  report_status-Moves token id name db = elim (Bool-cases (str_eq token id)) [
    | inr v ↦ rw (v, report_status) (All₂-refl db.runs)
    | inl v ↦ elim (Option-cases (reportable name)) [
      | inl e ↦ rw (v, report_status) (rw e (All₂-refl db.runs))
      | inr (st, e) ↦
          rw (v, report_status)
            (rw e (
              Moves-of_Updated (reports id) (λ x. record x { status = st }) db (report id st db).1
                (λ r h. (ground arith, ground (arith, reportable_iff name {st = st} e)))
                (report-Updated id st db)))
    ]
  ]
