-- ===== src/Retention/Progress.antt =====
-- What retention deletes, and what it never comes to.
use crucible_iap.Base.{
  ℕ, ◌≤◌, String, ◌≡◌, refl, ap, ◌∙◌, inl, inr, Bool, not, ◌&&◌, ◌||◌, Option, none, some, List, [],
  ◌∷◌, str_eq, eq_iff, keep, any, arith, Bool-cases,
}
use crucible_iap.Db.{Run}
use crucible_iap.Retention.{delete_all, old_runs, selected, run_retention}

-- whether a run has artifacts, or is among those selected
abbrev pub has : String → List String → Bool
has id ids = any (λ s. str_eq s id) ids

has-keep :
    (id gone : String) (store : List String)
    → has id (keep (λ s. not (str_eq s gone)) store) ≡ (has id store && not (str_eq gone id))
has-keep id gone [] = refl
has-keep id gone (s ∷ store) =
    ground (arith, has-keep id gone store, eq_iff s gone, eq_iff s id, eq_iff gone id)

delete_all-has :
    (fails : String → Bool) (id : String) (ids store : List String)
    → has id (delete_all fails ids store) ≡ (has id store && (not (has id ids) || fails id))
delete_all-has fails id [] store = ground arith
delete_all-has fails id (x ∷ ids) store = elim (Bool-cases (str_eq x id)) [
  | inl k ↦
      let same : fails x ≡ fails id = ap fails ((eq_iff x id).0 k) in
      elim (Bool-cases (fails x)) [
        | inl f ↦ rw f (delete_all-has fails id ids store ∙ ground (arith, k, f, same))
        | inr f ↦ rw f (
            delete_all-has fails id ids (keep (λ s. not (str_eq s x)) store)
            ∙ ground (arith, k, f, same, has-keep id x store))
      ]
  | inr k ↦ elim (Bool-cases (fails x)) [
    | inl f ↦ rw f (delete_all-has fails id ids store ∙ ground (arith, k))
    | inr f ↦ rw f (
        delete_all-has fails id ids (keep (λ s. not (str_eq s x)) store)
        ∙ ground (arith, k, has-keep id x store))
  ]
]

module _ {C : Type 0} where
  -- One tick deletes the artifacts of the runs that it selects, but for those whose deletion fails.
  pub run_retention-has :
      (fails : String → Bool) (cutoff : ℕ) (runs : List (Run C)) (id : String) (store : List String)
      → has id (run_retention fails (some cutoff) runs store)
        ≡ (has id store && (not (has id (selected cutoff runs)) || fails id))
  unfolding run_retention
  run_retention-has fails cutoff runs id store =
      delete_all-has fails id (selected cutoff runs) store

  -- a tick with a cutoff that is not earlier, at which the same runs had ended before the earlier one
  abbrev pub Later : ℕ → List (Run C) → Option ℕ → List (Run C) → Type 0
  Later a runs none now = Unit
  Later a runs (some b) now = (a ≤ b) × (old_runs a now ≡ old_runs a runs)
