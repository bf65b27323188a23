-- ===== src/Runs/Decisions/Reports.antt =====
-- The reports of a runner container against the gates on a run.
use crucible_iap.Base.{
  String, ◌≡◌, refl, true, false, some, List, [], ◌∷◌, inl, inr, arith, eq_iff, Bool-cases, any,
  find?, update_where,
}
use mathlib.Core.Option
use crucible_iap.Db.{applying, Run, Db}
use crucible_iap.Db.Env.{ok}
use crucible_iap.Db.Query.{find_run, status_of}
use crucible_iap.Runs.Status.{is_terminal}
use crucible_iap.Runs.Review.{is_run}
use crucible_iap.Runs.Internal.{report_status, report, reportable, reports}

module _ {C : Type 0} where
  reported-any :
      (id : String) (rs : List (Run C)) {r : Run C}
      → find? (is_run id) rs ≡ some r
      → is_terminal r.status ≡ false
      → any (reports id) rs ≡ true
  reported-any id [] e h = absurd (ground arith)
  reported-any id (x ∷ xs) {r} e h = ground (arith, reported-any id xs {r = r})

  reported-status :
      (id : String) (rs : List (Run C)) {r : Run C}
      → find? (is_run id) rs ≡ some r
      → is_terminal r.status ≡ false
      → Option.map
          (λ x. x.status)
          (find? (is_run id) (update_where (reports id) (λ x. record x { status = applying }) rs))
        ≡ some applying
  reported-status id [] e h = absurd (ground arith)
  reported-status id (x ∷ xs) {r} e h = elim (Bool-cases (is_run id x)) [
    | inl f ↦ ground arith
    | inr f ↦ ground (arith, reported-status id xs {r = r} (ground arith) h)
  ]

  -- A container that holds the token of a run sets it applying from every status that is not
  -- terminal, the two that wait for a decision of a user among them.
  pub report-ungated :
      (id : String) (db : Db C) (r : Run C)
      → find_run id db ≡ some r
      → is_terminal r.status ≡ false
      → ((report_status id id "applying" db).0 ≡ ok tt)
        × (status_of id (report_status id id "applying" db).1 ≡ some applying)
  unfolding report_status report reportable
  report-ungated id db r e h =
      rw ((eq_iff id id).1 refl)
        (rw (reported-any id db.runs {r = r} e h) (refl, reported-status id db.runs {r = r} e h))
