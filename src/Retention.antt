-- ===== src/Retention.antt =====
-- internal/worker/retention.go: the artifacts of old runs are deleted once a day. The store is the IDs
-- of the runs with artifacts; a deletion that `fails` leaves them. `cutoff` is now less the days of
-- the setting, none where the setting is not positive or does not load.
pub mod Progress
use crucible_iap.Base.{
  ℕ, String, Bool, true, false, not, ◌&&◌, Option, none, some, List, [], ◌∷◌, str_eq, ltb,
  if◌then◌else◌, keep, map,
}
use crucible_iap.Base.Map.{holds}
use crucible_iap.Base.Sorting.{first, sort_by}
use crucible_iap.Db.{RunStatus, finished, failed, canceled, discarded, Run}

-- status IN ('finished', 'failed', 'canceled', 'discarded')
abbrev pub is_over : RunStatus → Bool
is_over finished = true
is_over failed = true
is_over canceled = true
is_over discarded = true
is_over _ = false

abbrev pub time_of : Option ℕ → ℕ
time_of none = 0
time_of (some t) = t

-- store.DeleteArtifacts for each run
abbrev pub delete_all : (String → Bool) → List String → List String → List String
delete_all fails [] store = store
delete_all fails (id ∷ ids) store =
    delete_all fails ids (if fails id then store else keep (λ s. not (str_eq s id)) store)

module _ {C : Type 0} where
  -- the WHERE of the query
  abbrev pub is_old : ℕ → Run C → Bool
  is_old cutoff r = holds (λ t. ltb t cutoff) r.finished_at && is_over r.status

  abbrev pub old_runs : ℕ → List (Run C) → List (Run C)
  old_runs cutoff runs = keep (is_old cutoff) runs

  -- ORDER BY finished_at LIMIT 500
  abbrev pub selected : ℕ → List (Run C) → List String
  selected cutoff runs =
      map (λ r. r.id) (first 500 (sort_by (λ r. time_of r.finished_at) (old_runs cutoff runs)))

  -- `runRetention`
  unfoldable pub run_retention :
      (String → Bool) → Option ℕ → List (Run C) → List String → List String
  run_retention fails none runs store = store
  run_retention fails (some cutoff) runs store = delete_all fails (selected cutoff runs) store

  -- the ticks of `StartRetentionScheduler`, each with its cutoff and the runs at its time
  abbrev pub tick_all : (String → Bool) → List (Option ℕ × List (Run C)) → List String → List String
  tick_all fails [] store = store
  tick_all fails (t ∷ ticks) store = tick_all fails ticks (run_retention fails t.0 t.1 store)
