-- ===== src/Runs/Decisions/Diagram.antt =====
-- The diagram of the statuses against one request and against sequences of them.
use crucible_iap.Base.{
  String, ◌≡◌, refl, ap, ◌∙◌, true, ◌&&◌, some, List, [], ◌∷◌, inl, inr, arith, All₂, Bool-cases,
  find?, any,
}
use crucible_iap.Db.{RunStatus, discarded, canceled, Run, Db}
use crucible_iap.Db.Env.{Env}
use crucible_iap.Db.Query.{find_run, status_of}
use crucible_iap.Runs.Status.{is_unconfirmed, is_active, is_terminal}
use crucible_iap.Runs.Review
use crucible_iap.Runs.Review.{
  is_run, auto_applies, set_confirmed, set_approved, enqueue_apply, approve_step_done, approve_by,
  approve_found, approve_with_chain,
}
use crucible_iap.Runs.Control
use crucible_iap.Runs.Decisions.Rows.{Moves, Moves-of_Updated, Keys}
use crucible_iap.Runs.Decisions.Steps.{
  confirm-Updated, discard-Updated, cancel-Updated, chatops-Moves, report_status-Moves,
}
use crucible_iap.Runs.Decisions.Approvals.{approve-Moves}
use crucible_iap.Runs.Decisions.{Decision, handle, handle_all, edge}

terminal-edge : (s s' : RunStatus) → is_terminal s ≡ true → edge s s' ≡ true → s' ≡ s
terminal-edge s s' h e = ground arith

module _ {C : Type 0} where
  -- Whatever a request decides, each row of the runs table keeps its identifier and its place and
  -- its status either stays or follows an edge of the diagram, if the identifiers are unique.
  pub handle-Moves :
      (env : Env) (d : Decision) (db : Db C)
      → Keys db.runs
      → All₂ Moves db.runs (handle env d db).1.runs
  unfolding handle
  handle-Moves env (Decision.confirm c id) db h =
      Moves-of_Updated (λ x. is_run id x && is_unconfirmed x.status)
        (set_confirmed env (some c.user_id)) db (Review.confirm env c id db).1
        (λ r k. (ground arith, ground arith)) (confirm-Updated env c id db)
  handle-Moves env (Decision.approve c id) db h = approve-Moves env c id db h
  handle-Moves env (Decision.discard c id) db h =
      Moves-of_Updated (λ x. is_run id x && is_unconfirmed x.status)
        (λ x. record x { status = discarded }) db (Control.discard env c id db).1
        (λ r k. (ground arith, ground arith)) (discard-Updated env c id db)
  handle-Moves env (Decision.cancel c id) db h =
      Moves-of_Updated (λ x. is_run id x && is_active x.status)
        (λ x. record x { status = canceled }) db (Control.cancel env c id db).1
        (λ r k. (ground arith, ground arith)) (cancel-Updated env c id db)
  handle-Moves env (Decision.chatops valid id action) db h = chatops-Moves env valid id action db
  handle-Moves env (Decision.report token id status) db h = report_status-Moves token id status db

  find-Moves :
      (id : String) (r : Run C) (rs rs' : List (Run C))
      → All₂ Moves rs rs'
      → find? (is_run id) rs ≡ some r
      → (r' : Run C) × (find? (is_run id) rs' ≡ some r') × Moves r r'
  find-Moves id r [] [] m e = absurd (ground arith)
  find-Moves id r [] (y ∷ ys) m e = absurd m
  find-Moves id r (x ∷ xs) [] m e = absurd m
  find-Moves id r (x ∷ xs) (y ∷ ys) (m, ms) e = elim (Bool-cases (is_run id x)) [
    | inl f ↦ (y, ground arith, (ground arith, ground arith))
    | inr f ↦ let (r', e', m') = find-Moves id r xs ys ms (ground arith) in (r', ground arith, m')
  ]

  any-Moves :
      (id : String) (rs rs' : List (Run C))
      → All₂ Moves rs rs'
      → any (is_run id) rs' ≡ any (is_run id) rs
  any-Moves id [] [] m = refl
  any-Moves id [] (y ∷ ys) m = absurd m
  any-Moves id (x ∷ xs) [] m = absurd m
  any-Moves id (x ∷ xs) (y ∷ ys) (m, ms) = ground (arith, any-Moves id xs ys ms)

  Moves-Keys : (rs rs' : List (Run C)) → All₂ Moves rs rs' → Keys rs → Keys rs'
  Moves-Keys [] [] m k = tt
  Moves-Keys [] (y ∷ ys) m k = absurd m
  Moves-Keys (x ∷ xs) [] m k = absurd m
  Moves-Keys (x ∷ xs) (y ∷ ys) ((e, m), ms) (k, ks) =
      (rw e (any-Moves x.id xs ys ms ∙ k), Moves-Keys xs ys ms ks)

  -- A run with a terminal status keeps that status through any sequence of requests, in whatever
  -- order and by whomever they are made, if the identifiers of the runs are unique.
  pub handle_all-terminal :
      (env : Env) (ds : List Decision) (id : String) (r : Run C) (db : Db C)
      → Keys db.runs
      → find_run id db ≡ some r
      → is_terminal r.status ≡ true
      → status_of id (handle_all env ds db) ≡ some r.status
  unfolding handle_all
  handle_all-terminal env [] id r db k e h = ground arith
  handle_all-terminal env (d ∷ ds) id r db k e h =
      let moved = handle-Moves env d db k in
      let (r', e', (i, m)) = find-Moves id r db.runs (handle env d db).1.runs moved e in
      let same = terminal-edge r.status r'.status h m in
      handle_all-terminal env ds id r' (handle env d db).1
        (Moves-Keys db.runs (handle env d db).1.runs moved k) e' (ap is_terminal same ∙ h)
      ∙ ap some same
