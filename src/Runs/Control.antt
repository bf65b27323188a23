-- ===== src/Runs/Control.antt =====
-- internal/runs/handler.go: `Discard`, `Cancel` and `Delete`.
use crucible_iap.Base.{
  String, Bool, ◌&&◌, Option, none, some, str_eq, if◌then◌else◌, any, keep, not,
}
use crucible_iap.Db.{discarded, canceled, Run, Db}
use crucible_iap.Db.Env.{Env, Caller, Result, ok, http_error}
use crucible_iap.Db.Query.{find_run, find_stack, update_runs, audit}
use crucible_iap.Access.{may_act_on_run}
use crucible_iap.Runs.Status.{is_unconfirmed, is_active, is_terminal}
use crucible_iap.Runs.Review.{is_run, user_event}

module _ {C : Type 0} where
  -- UPDATE … WHERE id AND status IN …, a conflict where no row was affected
  unfoldable pub guarded_update :
      Env
      → Caller
      → String
      → String
      → (Run C → Bool)
      → (Run C → Run C)
      → Db C
      → Result (Unit {0}) × Db C
  guarded_update env c action id p f db =
      if any (λ x. is_run id x && p x) db.runs
      then (
        ok tt,
        audit (user_event c.user_id action id) (update_runs (λ x. is_run id x && p x) f db),
      )
      else (http_error 409, db)

  -- `Discard`
  unfoldable pub discard : Env → Caller → String → Db C → Result (Unit {0}) × Db C
  unfolding guarded_update
  discard env c id db =
      if may_act_on_run c id db
      then guarded_update env c "run.discarded" id (λ x. is_unconfirmed x.status)
          (λ x. record x { status = discarded }) db
      else (http_error 403, db)

  -- `Cancel`
  unfoldable pub cancel : Env → Caller → String → Db C → Result (Unit {0}) × Db C
  unfolding guarded_update
  cancel env c id db =
      if may_act_on_run c id db
      then guarded_update env c "run.canceled" id (λ x. is_active x.status)
          (λ x. record x { status = canceled }) db
      else (http_error 403, db)

  -- the run and its stack, in the caller's organisation
  abbrev pub own_run : Caller → String → Db C → Option (Run C)
  own_run c id db = elim (find_run id db) [
    | none ↦ none
    | some r ↦ elim (find_stack r.stack_id db) [
      | none ↦ none
      | some s ↦ if str_eq s.org_id c.org_id then some r else none
    ]
  ]

  -- `Delete`; the stored log and plan are removed with the row, without regard to errors
  unfoldable pub delete : Env → Caller → String → Db C → Result (Unit {0}) × Db C
  delete env c id db = elim (own_run c id db) [
    | none ↦ (http_error 404, db)
    | some r ↦
        if is_terminal r.status
        then (
          ok tt,
          audit (user_event c.user_id "run.deleted" id)
              (record db { runs = keep (λ x. not (is_run id x)) db.runs }),
        )
        else (http_error 409, db)
  ]
