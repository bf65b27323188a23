-- ===== src/State.antt =====
-- internal/state/handler.go: the Terraform HTTP backend of a stack, its lock, and the versions that
-- it records. `B` is the type of a stored document, and `decode` reads one. The store that a stack
-- is configured with is the table of its objects.
pub mod Keys
pub mod Exclusive
pub mod Diff
use crucible_iap.Base.{
  ℕ, suc, ◌+◌, String, Bool, true, false, not, ◌&&◌, ◌||◌, Option, none, some, List, [], ◌∷◌, ◌++◌,
  str_eq, ltb, if◌then◌else◌, any, find?, keep, count_if,
}
use crucible_iap.Base.Int.{ℤ, eq_ℤ}
use crucible_iap.Base.Map.{lookup, put}
use crucible_iap.Base.Bytes.{Bytes, Value, codes}
use crucible_iap.Db.{applying, RunStatus, Run, Stack, Event, Db}
use crucible_iap.Db.Env.{Env, Caller, Result, ok, http_error}
use crucible_iap.Db.Query.{audit}
use crucible_iap.State.Keys.{storage_key}

-- a row of state_locks, whose key is the stack
pub record Lock : Type 0 where
  pub stack_id : String
  pub lock_id : String
  pub operation : String

-- a row of state_versions
pub record Version : Type 0 where
  pub id : Bytes
  pub stack_id : String
  pub run_id : Option String
  pub serial : ℤ
  pub storage_key : Bytes
  pub resource_count : ℕ

-- a resource of a state document, with the attributes of each instance
pub record StateResource (X : Type 0) : Type 0 where
  pub module_path : String
  pub mode : String
  pub type : String
  pub name : String
  pub instances : List (List (String × Value X))

-- what a document decodes to
pub record Document (X : Type 0) : Type 0 where
  pub serial : ℤ
  pub resources : List (StateResource X)

-- an object of the version store
pub record Snapshot (B : Type 0) : Type 0 where
  pub stack_id : String
  pub version_id : Bytes
  pub body : B

-- the tables and objects of the backend, beside the others
pub record Store (C B : Type 0) : Type 0 where
  pub db : Db C
  pub locks : List Lock
  pub objects : List (String × B)
  pub snapshots : List (Snapshot B)
  pub versions : List Version

-- `LockInfo`, the columns that are stored
pub record LockInfo : Type 0 where
  pub id : String
  pub operation : String

abbrev pub of_stack : String → Lock → Bool
of_stack stack l = str_eq l.stack_id stack

abbrev pub held_by : String → String → Lock → Bool
held_by stack id l = of_stack stack l && str_eq l.lock_id id

abbrev is_applying : RunStatus → Bool
is_applying applying = true
is_applying _ = false

abbrev pub same_serial : String → ℤ → Version → Bool
same_serial stack serial v = str_eq v.stack_id stack && eq_ℤ v.serial serial

module _ {C : Type 0} where
  abbrev newer : Run C → Option (Run C) → Option (Run C)
  newer r none = some r
  newer r (some b) = if ltb r.queued_at b.queued_at then some b else some r

  -- SELECT id FROM runs … ORDER BY queued_at DESC LIMIT 1
  abbrev latest_applying : String → List (Run C) → Option (Run C)
  latest_applying stack [] = none
  latest_applying stack (r ∷ rest) =
      let best = latest_applying stack rest in
      if str_eq r.stack_id stack && is_applying r.status then newer r best else best

  abbrev applying_run : String → Db C → Option String
  applying_run stack db = elim (latest_applying stack db.runs) [ none ↦ none | some r ↦ some r.id ]

module _ {C B : Type 0} where
  abbrev pub find_lock : String → Store C B → Option Lock
  find_lock stack st = find? (of_stack stack) st.locks

  -- `Lock`; a body that does not decode is none, and the key of the table refuses a second lock
  unfoldable pub lock : String → Option LockInfo → Store C B → Result (Unit {0}) × Store C B
  lock stack none st = (http_error 400, st)
  lock stack (some info) st = if any (of_stack stack) st.locks then (http_error 423, st) else (
    ok tt,
    record st {
      locks =
          st.locks
          ++ (record { stack_id = stack; lock_id = info.id; operation = info.operation }) ∷ [];
    },
  )

  unfoldable pub release : String → String → Store C B → Result (Unit {0}) × Store C B
  release stack id st =
      if any (held_by stack id) st.locks
      then (ok tt, record st { locks = keep (λ l. not (held_by stack id l)) st.locks })
      else (http_error 409, st)

  -- `Unlock`
  unfoldable pub unlock : String → Option LockInfo → Store C B → Result (Unit {0}) × Store C B
  unfolding release
  unlock stack none st = (http_error 400, st)
  unlock stack (some info) st =
      if str_eq info.id "" then (http_error 400, st) else release stack info.id st

  abbrev pub stack_in_org : String → String → Store C B → Bool
  stack_in_org stack org st = any (λ s. str_eq s.id stack && str_eq s.org_id org) st.db.stacks

  -- `ForceUnlock`
  unfoldable pub force_unlock : Caller → String → Store C B → Result String × Store C B
  force_unlock c stack st =
      if not (stack_in_org stack c.org_id st)
      then (http_error 404, st)
      else (elim (find_lock stack st) [
        | none ↦ (http_error 404, st)
        | some l ↦ (
          ok l.lock_id,
          record st {
            locks = keep (λ x. not (of_stack stack x)) st.locks;
            db =
                audit
                  (record {
                    actor_id = c.user_id;
                    actor_type = "user";
                    action = "stack.lock.force-unlocked";
                    resource_id = stack;
                    org_id = "";
                  })
                  st.db;
          },
        )
      ])

  -- `assertLockHolder`: a stack without a lock, or a request without an ID, passes
  unfoldable pub assert_lock_holder : String → String → Store C B → Bool
  assert_lock_holder stack id st = elim (find_lock stack st) [
    | none ↦ true
    | some l ↦ not (not (str_eq id "") && not (str_eq l.lock_id id))
  ]

  -- `Get`; a state that was never written is the 204 of `none`
  unfoldable pub get : String → Store C B → Option B
  get stack st = lookup stack st.objects

  -- `Delete`
  unfoldable pub delete : String → Store C B → Result (Unit {0}) × Store C B
  delete stack st = (ok tt, record st { objects = keep (λ e. not (str_eq e.0 stack)) st.objects })

  -- INSERT INTO state_versions … ON CONFLICT (stack_id, serial) DO NOTHING
  abbrev pub insert_version : Version → Store C B → Store C B
  insert_version v st =
      if any (same_serial v.stack_id v.serial) st.versions
      then st
      else record st { versions = st.versions ++ v ∷ [] }

module _ {X : Type 0} where
  -- the resources that `snapshotVersion` counts
  abbrev pub is_managed : StateResource X → Bool
  is_managed r = str_eq r.mode "managed"

module _ {C B X : Type 0} (decode : B → Option (Document X)) where
  -- `snapshotVersion`, in the background of an update
  unfoldable pub record_snapshot : Env → String → B → Option (Document X) → Store C B → Store C B
  record_snapshot env stack body none st = st
  record_snapshot env stack body (some doc) st =
      let id = codes (env.uuid st.db.serial) in
      insert_version
        (record {
          id = id;
          stack_id = stack;
          run_id = applying_run stack st.db;
          serial = doc.serial;
          storage_key = storage_key (codes stack) id;
          resource_count = count_if is_managed doc.resources;
        })
        (record st {
          db = record st.db { serial = suc st.db.serial };
          snapshots =
              st.snapshots ++ (record { stack_id = stack; version_id = id; body = body }) ∷ [];
        })

  -- `Update`
  unfoldable pub update : Env → String → String → B → Store C B → Result (Unit {0}) × Store C B
  unfolding record_snapshot
  update env stack id body st =
      if not (assert_lock_holder stack id st) then (http_error 409, st) else (
        ok tt,
        record_snapshot env stack body (decode body)
            (record st { objects = put stack body st.objects }),
      )
