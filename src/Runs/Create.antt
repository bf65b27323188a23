-- ===== src/Runs/Create.antt =====
-- internal/runs/handler.go: `Create` and `Retrigger`, the requests that start a run.
pub mod Admission
use Prim.Native.Char.{code}
use crucible_iap.Base.{
  ℕ, String, Bool, true, false, not, ◌&&◌, ◌||◌, Option, none, some, List, [], ◌∷◌, str_eq,
  str_append, leb, ltb, ◌==◌, if◌then◌else◌, length,
}
use crucible_iap.Db.{RunType, tracked, proposed, destroy, Run, Stack, typed, RunJobArgs, Db}
use crucible_iap.Db.Env.{Env, Caller, Result, ok, http_error}
use crucible_iap.Db.Query.{NewRun, find_run, find_stack, insert_run, enqueue_run, audit}
use crucible_iap.Access.{may_write_stack, stack_role, may_write}
use crucible_iap.Quotas.{QuotaCheck, under, exceeded, check_concurrent_quota}
use crucible_iap.Runs.Status.{is_terminal}
use crucible_iap.Runs.Review.{user_event}
use crucible_iap.Runs.Control.{own_run}

-- one byte of `[A-Za-z0-9_]`, and one that may begin a name
abbrev is_name_start : ℕ → Bool
is_name_start c = (leb b'A' c && leb c b'Z') || (leb b'a' c && leb c b'z') || c == b'_'

abbrev is_name_char : ℕ → Bool
is_name_char c = is_name_start c || (leb b'0' c && leb c b'9')

unfoldable pub name_rest : String → Bool
name_rest String.[] = true
name_rest (String.◌∷◌ c s) = is_name_char (code c) && name_rest s

-- `envVarKeyRE.MatchString`
unfoldable pub is_env_var_key : String → Bool
unfolding name_rest
is_env_var_key String.[] = false
is_env_var_key (String.◌∷◌ c s) = is_name_start (code c) && name_rest s

-- the loop of `parseVarOverrides`; `none` is its error
unfoldable pub override_all : List (String × String) → Option (List String)
override_all [] = some []
override_all ((key, value) ∷ rest) =
    let others = override_all rest in
    if is_env_var_key key
    then (elim others [
      | none ↦ none
      | some out ↦ some (str_append key (str_append "=" value) ∷ out)
    ])
    else none

unfoldable pub parse_var_overrides : List (String × String) → Option (List String)
unfolding override_all
parse_var_overrides raw = if ltb 50 (length raw) then none else override_all raw

-- The cast of the request's type to the enum run_type; "" stands for tracked.
unfoldable pub requested_type : String → Option RunType
requested_type s =
    if str_eq s "" || str_eq s "tracked"
    then some tracked
    else if str_eq s "proposed"
    then some proposed
    else if str_eq s "destroy"
    then some destroy
    else none

module _ {C : Type 0} where
  -- The insertion of a manual run, with its job where no worker pool serves the stack.
  abbrev pub start_run :
      Env → Caller → String → String → Stack C → RunType → List String → Db C → Result String × Db C
  start_run env c action stack_id s type overrides db =
      let inserted =
        insert_run env
          (record {
            stack_id = stack_id;
            worker_pool_id = s.worker_pool_id;
            type = type;
            trigger = "manual";
            is_drift = false;
            var_overrides = overrides;
            triggered_by_dep_id = none;
            retry_attempt = 0;
          })
          db in
      (
        ok (env.uuid db.serial),
        audit (user_event c.user_id action (env.uuid db.serial)) (elim s.worker_pool_id [
          | some pool ↦ inserted
          | none ↦
              enqueue_run
                (record {
                  run_id = env.uuid db.serial;
                  stack_id = stack_id;
                  source = s.source;
                  run_type = typed type;
                  api_url = env.api_url;
                  auto_apply = false;
                  var_overrides = overrides;
                })
                inserted
        ]),
      )

  -- `lockedError`, then `checkRunQuota`
  abbrev pub admit : String → Stack C → Db C → Option ℕ
  admit org s db = if s.is_locked then some 409 else (elim (check_concurrent_quota org db) [
    | under ↦ none
    | exceeded limit current ↦ some 429
  ])

  unfoldable pub create_on :
      Env → Caller → String → Option RunType → List String → Stack C → Db C → Result String × Db C
  create_on env c stack_id type overrides s db = elim (admit c.org_id s db) [
    | some code ↦ (http_error code, db)
    | none ↦ elim type [
      | none ↦ (http_error 500, db)
      | some t ↦ start_run env c "run.created" stack_id s t overrides db
    ]
  ]

  -- `Create`
  unfoldable pub create :
      Env → Caller → String → String → List (String × String) → Db C → Result String × Db C
  unfolding create_on
  create env c stack_id type overrides db =
      if may_write_stack c stack_id db
      then (elim (parse_var_overrides overrides) [
        | none ↦ (http_error 400, db)
        | some vars ↦ elim (find_stack stack_id db) [
          | none ↦ (http_error 404, db)
          | some s ↦ create_on env c stack_id (requested_type type) vars s db
        ]
      ])
      else (http_error 403, db)

  unfoldable pub retrigger_on : Env → Caller → Run C → Stack C → Db C → Result String × Db C
  retrigger_on env c src s db = elim (admit c.org_id s db) [
    | some code ↦ (http_error code, db)
    | none ↦ start_run env c "run.retriggered" src.stack_id s src.type src.var_overrides db
  ]

  -- `Retrigger`
  unfoldable pub retrigger : Env → Caller → String → Db C → Result String × Db C
  unfolding retrigger_on
  retrigger env c id db = elim (own_run c id db) [
    | none ↦ (http_error 404, db)
    | some src ↦
        if not (is_terminal src.status)
        then (http_error 400, db)
        else if not (may_write (stack_role src.stack_id c.user_id c.org_id db))
        then (http_error 403, db)
        else (elim (find_stack src.stack_id db) [
          | none ↦ (http_error 404, db)
          | some s ↦ retrigger_on env c src s db
        ])
  ]
