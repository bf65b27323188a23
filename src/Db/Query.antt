-- ===== src/Db/Query.antt =====
-- The statements that several handlers share: the lookups by id, the writes to the runs table, the
-- audit log, the job queue and the notifications.
use mathlib.Core.Option
use crucible_iap.Base.{
  ℕ, suc, String, ◌≡◌, Bool, Option, none, some, List, [], ◌∷◌, ◌++◌, str_eq, if◌then◌else◌, find?,
  update_where, find?-update_where,
}
use crucible_iap.Db.{
  RunStatus, queued, RunType, Run, Stack, JobSource, no_source, RunJobArgs, Event, Notice, Db,
}
use crucible_iap.Db.Env.{Env}

module _ {C : Type 0} where
  abbrev pub find_run : String → Db C → Option (Run C)
  find_run id db = find? (λ r. str_eq r.id id) db.runs

  abbrev pub find_stack : String → Db C → Option (Stack C)
  find_stack id db = find? (λ s. str_eq s.id id) db.stacks

  abbrev pub status_of : String → Db C → Option RunStatus
  status_of id db = Option.map (λ r. r.status) (find_run id db)

  -- UPDATE runs SET f WHERE p
  abbrev pub update_runs : (Run C → Bool) → (Run C → Run C) → Db C → Db C
  update_runs p f db = record db { runs = update_where p f db.runs }

  -- audit.Record
  abbrev pub audit : Event → Db C → Db C
  audit e db = record db { audit_events = db.audit_events ++ e ∷ [] }

  abbrev pub notify : Notice → Db C → Db C
  notify n db = record db { notices = db.notices ++ n ∷ [] }

  -- Client.EnqueueRun
  abbrev pub enqueue_run : RunJobArgs → Db C → Db C
  enqueue_run args db = record db {
    jobs = db.jobs ++ (record { args = args; scheduled_at = none }) ∷ [];
  }

  -- Client.EnqueueRunDelayed
  abbrev pub enqueue_run_delayed : RunJobArgs → ℕ → Db C → Db C
  enqueue_run_delayed args at db = record db {
    jobs = db.jobs ++ (record { args = args; scheduled_at = some at }) ∷ [];
  }

  -- The job columns of a stack, empty where the row is missing and the error is ignored.
  abbrev pub source_of : Option (Stack C) → JobSource
  source_of none = no_source
  source_of (some s) = s.source

  abbrev pub pool_of : Option (Stack C) → Option String
  pool_of none = none
  pool_of (some s) = s.worker_pool_id

-- The columns that an INSERT INTO runs gives; the others take the defaults of the table.
pub record NewRun : Type 0 where
  pub stack_id : String
  pub worker_pool_id : Option String
  pub type : RunType
  pub trigger : String
  pub is_drift : Bool
  pub var_overrides : List String
  pub triggered_by_dep_id : Option String
  pub retry_attempt : ℕ

module _ {C : Type 0} where
  abbrev pub inserted : Env → NewRun → Db C → Run C
  inserted env n db = record {
    id = env.uuid db.serial;
    stack_id = n.stack_id;
    status = queued;
    type = n.type;
    trigger = n.trigger;
    worker_pool_id = n.worker_pool_id;
    is_drift = n.is_drift;
    var_overrides = n.var_overrides;
    annotation = none;
    approved_by = none;
    approved_at = none;
    escalated_at = none;
    queued_at = env.now;
    started_at = none;
    finished_at = none;
    plan_add = none;
    plan_change = none;
    plan_destroy = none;
    cost_add = none;
    cost_change = none;
    cost_remove = none;
    cost_currency = none;
    triggered_by_dep_id = n.triggered_by_dep_id;
    retry_attempt = n.retry_attempt;
  }

  -- INSERT INTO runs … RETURNING id: the new row has the next identifier.
  abbrev pub insert_run : Env → NewRun → Db C → Db C
  insert_run env n db = record db {
    runs = db.runs ++ inserted env n db ∷ [];
    serial = suc db.serial;
  }

  -- What an update does to the row of one id, if it keeps the ids.
  pub find_run-update_runs :
      (j : String) (p : Run C → Bool) (f : Run C → Run C) (db : Db C)
      → ((r : Run C) → str_eq (f r).id j ≡ str_eq r.id j)
      → find_run j (update_runs p f db) ≡ Option.map (λ r. if p r then f r else r) (find_run j db)
  find_run-update_runs j p f db h = find?-update_where (λ r. str_eq r.id j) p f db.runs h
