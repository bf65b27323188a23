-- ===== src/Deps/Graph.antt =====
-- internal/deps/handler.go: the requests that change the edges between stacks, and the recursive
-- query that looks for a cycle.
pub mod Closure
pub mod Acyclic
pub mod Edges
pub mod Requests
use crucible_iap.Base.{
  ℕ, zero, suc, String, Bool, true, false, not, ◌&&◌, ◌||◌, Option, none, some, List, [], ◌∷◌, ◌++◌,
  str_eq, leb, ltb, if◌then◌else◌, any, keep, map, length,
}
use crucible_iap.Base.Int.{ℤ, pos, ltb_ℤ, pos_part}
use crucible_iap.Db.{Stack, Dependency, Event, Db}
use crucible_iap.Db.Env.{Env, Caller, Float64, Result, ok, http_error}
use crucible_iap.Db.Query.{audit}
use crucible_iap.Base.{update_where}
use crucible_iap.Deps.Predicate.{Predicate, is_set, validate, Invalid}

abbrev pub member : String → List String → Bool
member x = any (λ y. str_eq y x)

-- an edge between two stacks
abbrev pub is_edge : String → String → Dependency → Bool
is_edge up down e = str_eq e.upstream_id up && str_eq e.downstream_id down

-- One step of WITH RECURSIVE … UNION: the stacks below the working table that are no result yet.
abbrev pub leads_on : List String → List String → Dependency → Bool
leads_on working result e = member e.upstream_id working && not (member e.downstream_id result)

abbrev pub frontier : List String → List String → List Dependency → List String
frontier working result es = map (λ e. e.downstream_id) (keep (leads_on working result) es)

-- The steps until the working table is empty; `none` where the rounds do not suffice.
unfoldable pub reachable_loop :
    ℕ → List Dependency → List String → List String → Option (List String)
reachable_loop rounds es [] result = some result
reachable_loop zero es (x ∷ xs) result = none
reachable_loop (suc rounds) es (x ∷ xs) result =
    let next = frontier (x ∷ xs) result es in reachable_loop rounds es next (result ++ next)

-- the first term of the recursion
abbrev pub children : String → List Dependency → List String
children up es = map (λ e. e.downstream_id) (keep (λ e. str_eq e.upstream_id up) es)

-- the table `reachable`; one round more than there are edges
unfoldable pub reachable : String → List Dependency → Option (List String)
unfolding reachable_loop
reachable up es = reachable_loop (suc (length es)) es (children up es) (children up es)

abbrev found : String → Option (List String) → Bool
found x none = false
found x (some l) = member x l

-- `hasCycle`
unfoldable pub has_cycle : String → String → List Dependency → Bool
unfolding reachable
has_cycle up down es = found up (reachable down es)

abbrev graph_event : Caller → String → String → Event
graph_event c action id = record {
  actor_id = c.user_id;
  actor_type = "user";
  action = action;
  resource_id = id;
  org_id = c.org_id;
}

-- the columns that an unset predicate leaves NULL read as ""
abbrev pub put_predicate : Predicate → Dependency → Dependency
put_predicate p e =
    if is_set p
    then record e {
      trigger_when_field = p.field;
      trigger_when_op = p.op;
      trigger_when_value = p.value;
    }
    else record e { trigger_when_field = ""; trigger_when_op = ""; trigger_when_value = "" }

abbrev pub out_of : ℤ → ℤ → ℤ → Bool
out_of lo hi n = ltb_ℤ n lo || ltb_ℤ hi n

module _ {C : Type 0} where
  -- SELECT EXISTS … WHERE id = … AND org_id = …
  abbrev pub stack_exists : String → String → Db C → Bool
  stack_exists id org db = any (λ s. str_eq s.id id && str_eq s.org_id org) db.stacks

  -- the columns of a new edge
  abbrev pub new_edge : Env → String → String → Db C → Dependency
  new_edge env up down db = record {
    id = env.uuid db.serial;
    upstream_id = up;
    downstream_id = down;
    trigger_when_field = "";
    trigger_when_op = "";
    trigger_when_value = "";
    retry_count = 0;
    retry_backoff_seconds = 60;
  }

  -- INSERT … ON CONFLICT DO NOTHING; a row that exists leaves no trace and no audit event
  unfoldable pub insert_edge : Env → Caller → String → String → Db C → Result (Unit {0}) × Db C
  insert_edge env c up down db = if any (is_edge up down) db.dependencies then (ok tt, db) else (
    ok tt,
    audit (graph_event c "stack.dependency.added" up) (record db {
      dependencies = db.dependencies ++ new_edge env up down db ∷ [];
      serial = suc db.serial;
    }),
  )

  -- `AddDownstream`
  unfoldable pub add_downstream : Env → Caller → String → String → Db C → Result (Unit {0}) × Db C
  unfolding insert_edge
  add_downstream env c up down db =
      if str_eq up down
      then (http_error 400, db)
      else if not (stack_exists up c.org_id db && stack_exists down c.org_id db)
      then (http_error 404, db)
      else if has_cycle up down db.dependencies
      then (http_error 409, db)
      else insert_edge env c up down db

  -- the rows that `WHERE upstream_id AND downstream_id AND EXISTS …` takes
  abbrev pub own_edge : Caller → String → String → Db C → Dependency → Bool
  own_edge c up down db e = is_edge up down e && stack_exists up c.org_id db

  -- an update of one edge, 404 where no row was affected
  unfoldable pub update_edge :
      Caller
      → String
      → String
      → String
      → (Dependency → Dependency)
      → Db C
      → Result (Unit {0}) × Db C
  update_edge c action up down f db =
      if any (own_edge c up down db) db.dependencies
      then (
        ok tt,
        audit (graph_event c action up)
            (record db { dependencies = update_where (own_edge c up down db) f db.dependencies }),
      )
      else (http_error 404, db)

  -- `SetPredicate`
  unfoldable pub set_predicate :
      Float64 C → Caller → String → String → Predicate → Db C → Result (Unit {0}) × Db C
  unfolding update_edge
  set_predicate F c up down p db = elim (validate F p) [
    | some invalid ↦ (http_error 400, db)
    | none ↦ update_edge c "stack.dependency.predicate_set" up down (put_predicate p) db
  ]

  -- `SetRetry`
  unfoldable pub set_retry : Caller → String → String → ℤ → ℤ → Db C → Result (Unit {0}) × Db C
  unfolding update_edge
  set_retry c up down count backoff db =
      if out_of (pos 0) (pos 10) count
      then (http_error 400, db)
      else if out_of (pos 1) (pos 3600) backoff
      then (http_error 400, db)
      else update_edge c "stack.dependency.retry_set" up down
          (λ e. record e { retry_count = pos_part count; retry_backoff_seconds = pos_part backoff })
          db

  -- `RemoveDownstream`
  unfoldable pub remove_downstream : Caller → String → String → Db C → Result (Unit {0}) × Db C
  remove_downstream c up down db =
      if any (own_edge c up down db) db.dependencies
      then (
        ok tt,
        audit (graph_event c "stack.dependency.removed" up) (record db {
          dependencies = keep (λ e. not (own_edge c up down db e)) db.dependencies;
        }),
      )
      else (http_error 404, db)
