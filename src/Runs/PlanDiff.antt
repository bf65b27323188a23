-- ===== src/Runs/PlanDiff.antt =====
-- internal/runs/plandiff.go: the difference between the plans of two runs. `marshal` is
-- json.Marshal, and a Go map is the list of its entries.
pub mod Sides
pub mod Laws
use crucible_iap.Base.{
  String, Bool, true, false, not, ◌&&◌, ◌||◌, Option, none, some, List, [], ◌∷◌, ◌++◌, str_eq,
  if◌then◌else◌, any, keep, map,
}
use crucible_iap.Base.Map.{lookup, put, has}
use crucible_iap.Base.Bytes.{Value, cap_value}
use crucible_iap.Db.{Run, Db}
use crucible_iap.Db.Env.{Result, ok, http_error}
use crucible_iap.Db.Query.{find_run}

-- `tfResourceChange`; `after` is none where the planned value is no object
pub record ResourceChange (X : Type 0) : Type 0 where
  pub address : String
  pub type : String
  pub actions : List String
  pub after : Option (List (String × Value X))

-- `PlanDiffEntry`
pub record PlanDiffEntry : Type 0 where
  pub address : String
  pub type : String
  pub actions : List String

-- `PlanDiffChanged`; a value that a plan does not have is none, Go's nil
pub record PlanDiffChanged (X : Type 0) : Type 0 where
  pub address : String
  pub type : String
  pub from_actions : List String
  pub to_actions : List String
  pub attrs_before : List (String × Option (Value X))
  pub attrs_after : List (String × Option (Value X))

-- `PlanDiff`
pub record PlanDiff (X : Type 0) : Type 0 where
  pub from_run_id : String
  pub to_run_id : String
  pub new : List PlanDiffEntry
  pub removed : List PlanDiffEntry
  pub changed : List (PlanDiffChanged X)

-- `isNoOp`
abbrev pub is_no_op : List String → Bool
is_no_op [] = false
is_no_op (a ∷ []) = str_eq a "no-op"
is_no_op (a ∷ b ∷ rest) = false

-- `actionsEqual`
unfoldable pub actions_equal : List String → List String → Bool
actions_equal [] [] = true
actions_equal [] (b ∷ bs) = false
actions_equal (a ∷ as_) [] = false
actions_equal (a ∷ as_) (b ∷ bs) = str_eq a b && actions_equal as_ bs

module _ {X : Type 0} where
  -- `indexPlanResources` from a map that is there already
  abbrev pub index_from :
      List (String × ResourceChange X) → List (ResourceChange X) → List (String × ResourceChange X)
  index_from m [] = m
  index_from m (r ∷ rest) = index_from (if is_no_op r.actions then m else put r.address r m) rest

  unfoldable pub index_plan_resources : List (ResourceChange X) → List (String × ResourceChange X)
  index_plan_resources changes = index_from [] changes

  abbrev cap_optional : Option (Value X) → Option (Value X)
  cap_optional none = none
  cap_optional (some v) = some (cap_value v)

  abbrev pub all_keys : List (String × Value X) → List (String × Value X) → List String
  all_keys from to = map (λ e. e.0) from ++ map (λ e. e.0) (keep (λ e. not (has e.0 from)) to)

  -- the values of a key that the two plans are compared by
  abbrev pub attr : String → List (String × Value X) → Option (Value X)
  attr k m = cap_optional (lookup k m)

  abbrev pub attr_differs :
      (Option (Value X) → String)
      → List (String × Value X)
      → List (String × Value X)
      → String
      → Bool
  attr_differs marshal from to k = not (str_eq (marshal (attr k from)) (marshal (attr k to)))

  -- `diffPlanAttrs`: the differing keys; none where one of the values is no object
  abbrev pub diff_plan_attrs :
      (Option (Value X) → String)
      → Option (List (String × Value X))
      → Option (List (String × Value X))
      → List String
  diff_plan_attrs marshal none to = []
  diff_plan_attrs marshal (some from) none = []
  diff_plan_attrs marshal (some from) (some to) =
      keep (attr_differs marshal from to) (all_keys from to)

  abbrev attrs_of :
      Option (List (String × Value X)) → List String → List (String × Option (Value X))
  attrs_of none keys = []
  attrs_of (some m) keys = map (λ k. (k, attr k m)) keys

  unfoldable pub attrs_changed :
      ResourceChange X → ResourceChange X → List String → Option (PlanDiffChanged X)
  attrs_changed fr tr [] = none
  attrs_changed fr tr (k ∷ keys) = some (record {
    address = tr.address;
    type = tr.type;
    from_actions = tr.actions;
    to_actions = tr.actions;
    attrs_before = attrs_of fr.after (k ∷ keys);
    attrs_after = attrs_of tr.after (k ∷ keys);
  })

  -- `planResourceChanged`
  unfoldable pub plan_resource_changed :
      (Option (Value X) → String) → ResourceChange X → ResourceChange X → Option (PlanDiffChanged X)
  unfolding attrs_changed
  plan_resource_changed marshal fr tr =
      if not (actions_equal fr.actions tr.actions)
      then some (record {
        address = tr.address;
        type = tr.type;
        from_actions = fr.actions;
        to_actions = tr.actions;
        attrs_before = [];
        attrs_after = [];
      })
      else attrs_changed fr tr (diff_plan_attrs marshal fr.after tr.after)

  abbrev entry : String × ResourceChange X → PlanDiffEntry
  entry e = record { address = e.0; type = e.1.type; actions = e.1.actions }

  -- the entries of one map under no key of the other
  abbrev pub only_in :
      List (String × ResourceChange X) → List (String × ResourceChange X) → List PlanDiffEntry
  only_in m m' = map entry (keep (λ e. not (has e.0 m')) m)

  abbrev pub changed_at :
      (Option (Value X) → String)
      → List (String × ResourceChange X)
      → String × ResourceChange X
      → Option (PlanDiffChanged X)
  changed_at marshal from e = elim (lookup e.0 from) [
    | none ↦ none
    | some fr ↦ plan_resource_changed marshal fr e.1
  ]

  -- the third loop of `buildPlanDiff`
  abbrev pub changes :
      (Option (Value X) → String)
      → List (String × ResourceChange X)
      → List (String × ResourceChange X)
      → List (PlanDiffChanged X)
  changes marshal from [] = []
  changes marshal from (e ∷ to) =
      let rest = changes marshal from to in
      elim (changed_at marshal from e) [ none ↦ rest | some c ↦ c ∷ rest ]

  -- `buildPlanDiff`
  unfoldable pub build_plan_diff :
      (Option (Value X) → String)
      → String
      → String
      → List (ResourceChange X)
      → List (ResourceChange X)
      → PlanDiff X
  build_plan_diff marshal from_id to_id from to = record {
    from_run_id = from_id;
    to_run_id = to_id;
    new = only_in (index_plan_resources to) (index_plan_resources from);
    removed = only_in (index_plan_resources from) (index_plan_resources to);
    changed = changes marshal (index_plan_resources from) (index_plan_resources to);
  }

module _ {C : Type 0} where
  -- the column stack_id of a run, "" where the row is missing
  abbrev stack_of : String → Db C → String
  stack_of id db = elim (find_run id db) [ none ↦ "" | some r ↦ r.stack_id ]

module _ {X : Type 0} where
  -- The two stored plans: a plan that is not stored is none, one that is no JSON is `some none`.
  diff_plans :
      (Option (Value X) → String)
      → String
      → String
      → Option (Option (List (ResourceChange X)))
      → Option (Option (List (ResourceChange X)))
      → Result (PlanDiff X)
  diff_plans marshal from_id to_id none to = http_error 404
  diff_plans marshal from_id to_id (some from) none = http_error 404
  diff_plans marshal from_id to_id (some none) (some to) = http_error 500
  diff_plans marshal from_id to_id (some (some from)) (some none) = http_error 500
  diff_plans marshal from_id to_id (some (some from)) (some (some to)) =
      ok (build_plan_diff marshal from_id to_id from to)

module _ {C X : Type 0} where
  -- `GetPlanDiff`, with the store of the plans
  unfoldable pub get_plan_diff :
      (Option (Value X) → String)
      → (String → Option (Option (List (ResourceChange X))))
      → String
      → String
      → String
      → Db C
      → Result (PlanDiff X)
  unfolding diff_plans
  get_plan_diff marshal plans stack_id from_id to_id db =
      if str_eq from_id "" || str_eq to_id ""
      then http_error 400
      else if str_eq from_id to_id
      then http_error 400
      else if not (str_eq (stack_of from_id db) stack_id && str_eq (stack_of to_id db) stack_id)
      then http_error 404
      else diff_plans marshal from_id to_id (plans from_id) (plans to_id)
