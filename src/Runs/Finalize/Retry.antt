-- ===== src/Runs/Finalize/Retry.antt =====
-- The retry of a failed run that a dependency has triggered.
use crucible_iap.Base.{
  ℕ, ◌+◌, ◌*◌, ◌^◌, ◌≤◌, String, ◌≡◌, refl, ◌⊎◌, false, some, [], ◌∷◌, ◌++◌, inl, inr, arith,
  Bool-cases, Option-cases, leb,
}
use crucible_iap.Db.{queued, tracked, typed, Run, Stack, Dependency, Job, Db}
use crucible_iap.Db.Env.{Env}
use crucible_iap.Db.Query.{NewRun, inserted, find_run, find_stack}
use crucible_iap.Runs.Finalize.{
  capped, retry_delay, schedule_retry, dependency_of, maybe_retry_dep_run,
}
use native.Mathlib.Nat.{pow-le-pow_right, mul-le-mul_left}

capped-le : (a : ℕ) → capped a ≤ 10
capped-le a = ground arith

power-le : (n : ℕ) → n ≤ 10 → 2 ^ n ≤ 1024
power-le n h = pow-le-pow_right (omega arith) h

module _ {C : Type 0} where
  -- a run that a retry inserted
  abbrev pub Retried : Run C → Dependency → Run C → Type 0
  Retried r d new =
      (new.retry_attempt ≡ r.retry_attempt + 1)
      × (new.retry_attempt ≤ d.retry_count)
      × (new.triggered_by_dep_id ≡ some d.id)
      × (new.stack_id ≡ r.stack_id)
      × (new.status ≡ queued)

  abbrev pub retry_row : Run C → Dependency → Stack C → NewRun
  retry_row r d s = record {
    stack_id = r.stack_id;
    worker_pool_id = s.worker_pool_id;
    type = tracked;
    trigger = "dependency";
    is_drift = false;
    var_overrides = [];
    triggered_by_dep_id = some d.id;
    retry_attempt = r.retry_attempt + 1;
  }

  pub schedule_retry-runs :
      (env : Env) (org : String) (r : Run C) (d : Dependency) (s : Stack C) (db : Db C)
      → (schedule_retry env org r d s db).runs ≡ db.runs ++ inserted env (retry_row r d s) db ∷ []
  schedule_retry-runs env org r d s db = elim (Option-cases s.worker_pool_id) [
    | inl g ↦ rw g refl
    | inr (p, g) ↦ rw g refl
  ]

  -- The retry of a run whose edge exists leaves the table of runs as it is, or adds one queued run of
  -- the same stack for the same edge, whose attempt is the next one and within the retry count of the
  -- edge.
  pub retry-bounded :
      (env : Env) (org id : String) (db : Db C) (r : Run C) (d : Dependency)
      → find_run id db ≡ some r
      → dependency_of r db ≡ some d
      → ((maybe_retry_dep_run env org id db).runs ≡ db.runs)
        ⊎ ((new : Run C) × ((maybe_retry_dep_run env org id db).runs ≡ db.runs ++ new ∷ [])
            × Retried r d new)
  unfolding maybe_retry_dep_run
  retry-bounded env org id db r d e f = elim (Option-cases (find_stack r.stack_id db)) [
    | inl g ↦ inl (ground arith)
    | inr (s, g) ↦ elim (Bool-cases (leb d.retry_count r.retry_attempt)) [
      | inl h ↦ inl (ground arith)
      | inr h ↦ inr (
        inserted env (retry_row r d s) db,
        rw (e, maybe_retry_dep_run) (rw (f, g, h) (schedule_retry-runs env org r d s db)),
        (refl, ground arith, refl, refl, refl),
      )
    ]
  ]

  -- a job that a retry queued
  abbrev pub Delayed : Env → Dependency → Run C → Job → Type 0
  Delayed env d r j =
      (j.args.api_url ≡ "")
      × (j.scheduled_at ≡ some (env.now + retry_delay d.retry_backoff_seconds r.retry_attempt))
      × (retry_delay d.retry_backoff_seconds r.retry_attempt ≤ d.retry_backoff_seconds * 1024)

  retry_delay-le : (backoff attempt : ℕ) (db : Db C) → retry_delay backoff attempt ≤ backoff * 1024
  retry_delay-le backoff attempt db =
      mul-le-mul_left backoff (power-le (capped attempt) (capped-le attempt))

  -- The retry of a run whose edge exists leaves the job queue as it is, or adds one job, after the
  -- backoff of the edge doubled for each attempt before, which is at most 1024 times the backoff; the
  -- API URL of that job is empty.
  pub retry-job :
      (env : Env) (org id : String) (db : Db C) (r : Run C) (d : Dependency)
      → find_run id db ≡ some r
      → dependency_of r db ≡ some d
      → ((maybe_retry_dep_run env org id db).jobs ≡ db.jobs)
        ⊎ ((j : Job) × ((maybe_retry_dep_run env org id db).jobs ≡ db.jobs ++ j ∷ [])
            × Delayed env d r j)
  unfolding maybe_retry_dep_run
  retry-job env org id db r d e f = elim (Option-cases (find_stack r.stack_id db)) [
    | inl g ↦ inl (ground arith)
    | inr (s, g) ↦ elim (Bool-cases (leb d.retry_count r.retry_attempt)) [
      | inl h ↦ inl (ground arith)
      | inr h ↦ elim (Option-cases s.worker_pool_id) [
        | inr (p, k) ↦ inl (rw (e, maybe_retry_dep_run) (rw (f, g, h) (rw k refl)))
        | inl k ↦ inr (
          record {
            args = record {
              run_id = env.uuid db.serial;
              stack_id = r.stack_id;
              source = s.source;
              run_type = typed tracked;
              api_url = "";
              auto_apply = s.auto_apply;
              var_overrides = [];
            };
            scheduled_at = some (env.now + retry_delay d.retry_backoff_seconds r.retry_attempt);
          },
          rw (e, maybe_retry_dep_run) (rw (f, g, h) (rw k refl)),
          (refl, refl, retry_delay-le d.retry_backoff_seconds r.retry_attempt db),
        )
      ]
    ]
  ]
