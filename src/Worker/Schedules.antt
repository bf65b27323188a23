-- ===== src/Worker/Schedules.antt =====
-- internal/worker/ttl.go, drift.go, schedule.go and validation_schedule.go: the passes that enqueue
-- runs at their times. The columns of a stack that only these passes read are a table of their own;
-- `cron_next` is robfig/cron, none where the expression does not parse.
pub mod Firing
use crucible_iap.Base.{
  ℕ, ◌+◌, ◌*◌, String, Bool, true, false, not, ◌&&◌, ◌||◌, Option, none, some, List, [], ◌∷◌, ◌++◌,
  str_eq, ltb, leb, if◌then◌else◌, keep, find?, update_where,
}
use crucible_iap.Base.Int.{ℤ, pos, negsuc}
use crucible_iap.Db.{
  RunType, tracked, proposed, destroy, Run, Stack, JobSource, RunJobArgs, JobType, typed, Db,
}
use crucible_iap.Db.Env.{Env}
use crucible_iap.Db.Query.{find_stack, insert_run, enqueue_run}

-- `x IS NOT NULL AND x <= now()`
abbrev pub is_due : ℕ → Option ℕ → Bool
is_due now none = false
is_due now (some t) = leb t now

module _ {C : Type 0} where
  -- the run of a pass and its job, the same in each of them
  abbrev pub fire : Env → Stack C → RunType → String → Bool → Bool → Db C → Db C
  fire env s type trigger is_drift auto_apply db =
      enqueue_run
        (record {
          run_id = env.uuid db.serial;
          stack_id = s.id;
          source = s.source;
          run_type = typed type;
          api_url = env.base_url;
          auto_apply = auto_apply;
          var_overrides = [];
        })
        (insert_run env
          (record {
            stack_id = s.id;
            worker_pool_id = none;
            type = type;
            trigger = trigger;
            is_drift = is_drift;
            var_overrides = [];
            triggered_by_dep_id = none;
            retry_attempt = 0;
          })
          db)

  -- the WHERE of the TTL pass
  abbrev pub ttl_is_due : Env → Stack C → Bool
  ttl_is_due env s = is_due env.now s.scheduled_destroy_at && not s.is_disabled

  -- UPDATE stacks SET scheduled_destroy_at = NULL WHERE id = $1
  abbrev pub clear_ttl : String → Db C → Db C
  clear_ttl id db = record db {
    stacks =
        update_where (λ s. str_eq s.id id) (λ s. record s { scheduled_destroy_at = none })
          db.stacks;
  }

  -- `enqueueTTLDestroy`
  abbrev pub enqueue_ttl_destroy : Env → Stack C → Db C → Db C
  enqueue_ttl_destroy env s db = fire env s destroy "scheduled_destroy" false false db

  unfoldable pub destroy_each : Env → List (Stack C) → Db C → Db C
  destroy_each env [] db = db
  destroy_each env (s ∷ due) db =
      destroy_each env due (clear_ttl s.id (enqueue_ttl_destroy env s db))

  -- `runTTLDestroys`
  unfoldable pub run_ttl_destroys : Env → Db C → Db C
  unfolding destroy_each
  run_ttl_destroys env db = destroy_each env (keep (ttl_is_due env) db.stacks) db

-- a column with a cron expression, "" where it is NULL, and the time of its next run
pub record Schedule : Type 0 where
  pub expr : String
  pub next_run_at : Option ℕ

-- the columns of the drift and cron passes
pub record Timer : Type 0 where
  pub stack_id : String
  pub drift_detection : Bool
  pub drift_schedule : Option ℕ
  pub drift_last_run_at : Option ℕ
  pub plan : Schedule
  pub apply : Schedule
  pub destroy_ : Schedule

-- the tables of these passes
pub record Clock (C : Type 0) : Type 0 where
  pub db : Db C
  pub timers : List Timer

-- the three schedules of a stack
pub data Kind : Type 0 where
  plan_kind apply_kind destroy_kind : Kind

abbrev pub schedule_of : Kind → Timer → Schedule
schedule_of plan_kind t = t.plan
schedule_of apply_kind t = t.apply
schedule_of destroy_kind t = t.destroy_

abbrev pub set_next : Kind → ℕ → Timer → Timer
set_next plan_kind at t = record t { plan = record t.plan { next_run_at = some at } }
set_next apply_kind at t = record t { apply = record t.apply { next_run_at = some at } }
set_next destroy_kind at t = record t { destroy_ = record t.destroy_ { next_run_at = some at } }

abbrev run_type_of : Kind → RunType
run_type_of plan_kind = proposed
run_type_of apply_kind = tracked
run_type_of destroy_kind = destroy

abbrev trigger_of : Kind → String
trigger_of plan_kind = "scheduled_plan"
trigger_of apply_kind = "scheduled_apply"
trigger_of destroy_kind = "scheduled_destroy_cron"

abbrev pub kind_is_due : ℕ → Kind → Timer → Bool
kind_is_due now k t = is_due now (schedule_of k t).next_run_at

module _ (cron_next : String → ℕ → Option ℕ) where
  -- the new time of a schedule, where its expression parses
  abbrev pub advance : Env → Kind → Timer → List Timer → List Timer
  advance env k t timers = elim (cron_next (schedule_of k t).expr env.now) [
    | none ↦ timers
    | some at ↦ update_where (λ x. str_eq x.stack_id t.stack_id) (set_next k at) timers
  ]

module _ {C : Type 0} where
  -- a stack that is neither disabled nor locked
  abbrev pub is_open : Option (Stack C) → Bool
  is_open none = false
  is_open (some s) = not s.is_disabled && not s.is_locked

  -- the WHERE of the cron pass
  abbrev pub cron_is_due : Env → Db C → Timer → Bool
  cron_is_due env db t =
      is_open (find_stack t.stack_id db)
      && (kind_is_due env.now plan_kind t
          || kind_is_due env.now apply_kind t
          || kind_is_due env.now destroy_kind t)

  module _ (cron_next : String → ℕ → Option ℕ) where
    -- `enqueueScheduledRun`
    abbrev pub enqueue_scheduled_run : Env → Kind → Timer → Stack C → Clock C → Clock C
    enqueue_scheduled_run env k t s st = record {
      db =
          fire env s (run_type_of k) (trigger_of k) false (str_eq (trigger_of k) "scheduled_apply")
            st.db;
      timers = advance cron_next env k t st.timers;
    }

    abbrev pub fire_kind : Env → Kind → Timer → Stack C → Clock C → Clock C
    fire_kind env k t s st =
        if kind_is_due env.now k t then enqueue_scheduled_run env k t s st else st

    -- one round of the loop, with the row that the query returned
    unfoldable pub fire_timer : Env → Timer → Option (Stack C) → Clock C → Clock C
    fire_timer env t none st = st
    fire_timer env t (some s) st =
        fire_kind env destroy_kind t s
          (fire_kind env apply_kind t s (fire_kind env plan_kind t s st))

    unfoldable pub fire_each : Env → List Timer → Clock C → Clock C
    unfolding fire_timer
    fire_each env [] st = st
    fire_each env (t ∷ due) st =
        fire_each env due (fire_timer env t (find_stack t.stack_id st.db) st)

    -- `runScheduledJobs`
    unfoldable pub run_scheduled_jobs : Env → Clock C → Clock C
    unfolding fire_each
    run_scheduled_jobs env st = fire_each env (keep (cron_is_due env st.db) st.timers) st

  -- the WHERE of the drift pass; the interval counts minutes
  abbrev pub drift_is_due : Env → Db C → Timer → Bool
  drift_is_due env db t =
      t.drift_detection && is_open (find_stack t.stack_id db) && (elim t.drift_schedule [
        | none ↦ false
        | some minutes ↦ elim t.drift_last_run_at [
          | none ↦ true
          | some last ↦ leb (last + minutes * 60) env.now
        ]
      ])

  -- `enqueueDriftRun`
  abbrev pub enqueue_drift_run : Env → Option (Stack C) → Db C → Db C
  enqueue_drift_run env none db = db
  enqueue_drift_run env (some s) db = fire env s proposed "drift_detection" true false db

  unfoldable pub drift_each : Env → List Timer → Clock C → Clock C
  drift_each env [] st = st
  drift_each env (t ∷ due) st = drift_each env due (record {
    db = enqueue_drift_run env (find_stack t.stack_id st.db) st.db;
    timers =
        update_where (λ x. str_eq x.stack_id t.stack_id)
          (λ x. record x { drift_last_run_at = some env.now }) st.timers;
  })

  -- `runDriftChecks`
  unfoldable pub run_drift_checks : Env → Clock C → Clock C
  unfolding drift_each
  run_drift_checks env st = drift_each env (keep (drift_is_due env st.db) st.timers) st
