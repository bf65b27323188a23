-- ===== src/State/Diff.antt =====
-- internal/state/handler.go: the resources of a state, and the difference of a recorded version and
-- the one before it. `print` is what fmt.Sprintf makes of a value with %v.
pub mod Sides
use crucible_iap.Base.{
  ℕ, String, Bool, true, false, not, ◌&&◌, ◌||◌, Option, none, some, List, [], ◌∷◌, ◌++◌, str_eq,
  str_append, if◌then◌else◌, any, find?, keep, map, length,
}
use crucible_iap.Base.Int.{ℤ, ltb_ℤ}
use crucible_iap.Base.Map.{lookup, put, has}
use crucible_iap.Base.Bytes.{Bytes, Value, cap_value, bytes_eq}
use crucible_iap.Db.Env.{Caller, Result, ok, http_error}
use crucible_iap.State.{
  Version, StateResource, Document, Snapshot, Store, is_managed, stack_in_org, get,
}
use crucible_iap.State.Keys.{extract_version_id}

-- an item of `ListResources`
pub record ResourceEntry : Type 0 where
  pub address : String
  pub type : String
  pub name : String
  pub module_path : String
  pub mode : String
  pub instance_count : ℕ

-- `parsedResource`
pub record ParsedResource (X : Type 0) : Type 0 where
  pub type : String
  pub count : ℕ
  pub attrs : List (String × Value X)

-- `DiffEntry`
pub record DiffEntry : Type 0 where
  pub address : String
  pub type : String
  pub instance_count : ℕ

-- `ChangedEntry`
pub record ChangedEntry (X : Type 0) : Type 0 where
  pub address : String
  pub type : String
  pub before : List (String × Value X)
  pub after : List (String × Value X)

-- `StateDiff`
pub record StateDiff (X : Type 0) : Type 0 where
  pub from_version_id : Option Bytes
  pub to_version_id : Bytes
  pub added : List DiffEntry
  pub removed : List DiffEntry
  pub changed : List (ChangedEntry X)

module _ {X : Type 0} where
  abbrev pub address : StateResource X → String
  address r =
      let plain = str_append r.type (str_append "." r.name) in
      if str_eq r.module_path "" then plain else str_append r.module_path (str_append "." plain)

  abbrev resource_entry : StateResource X → ResourceEntry
  resource_entry r = record {
    address = address r;
    type = r.type;
    name = r.name;
    module_path = r.module_path;
    mode = r.mode;
    instance_count = length r.instances;
  }

  -- merged[k] = v for the attributes of one instance
  abbrev merge_instance :
      List (String × Value X) → List (String × Value X) → List (String × Value X)
  merge_instance merged [] = merged
  merge_instance merged (e ∷ attrs) = merge_instance (put e.0 e.1 merged) attrs

  abbrev merge_from :
      List (String × Value X) → List (List (String × Value X)) → List (String × Value X)
  merge_from merged [] = merged
  merge_from merged (i ∷ instances) = merge_from (merge_instance merged i) instances

  abbrev parsed : StateResource X → ParsedResource X
  parsed r = record { type = r.type; count = length r.instances; attrs = merge_from [] r.instances }

  -- `parseStateResources` from a map that is there already
  abbrev pub parse_from :
      List (String × ParsedResource X) → List (StateResource X) → List (String × ParsedResource X)
  parse_from out [] = out
  parse_from out (r ∷ rest) =
      parse_from (if is_managed r then put (address r) (parsed r) out else out) rest

  -- `parseStateResources`; a state that does not decode has no resources
  unfoldable pub parse_state_resources : Option (Document X) → List (String × ParsedResource X)
  parse_state_resources none = []
  parse_state_resources (some doc) = parse_from [] doc.resources

  abbrev cap_optional : Option (Value X) → Option (Value X)
  cap_optional none = none
  cap_optional (some v) = some (cap_value v)

  abbrev all_keys : List (String × Value X) → List (String × Value X) → List String
  all_keys old new = map (λ e. e.0) old ++ map (λ e. e.0) (keep (λ e. not (has e.0 old)) new)

  -- equal texts, and a key that both sides have or none
  abbrev pub key_differs :
      (Option (Value X) → String)
      → List (String × Value X)
      → List (String × Value X)
      → String
      → Bool
  key_differs print old new k =
      let same =
        str_eq (print (cap_optional (lookup k old))) (print (cap_optional (lookup k new))) in
      not (same && (if has k old then has k new else not (has k new)))

  -- the values of the keys that a map has
  abbrev values : List (String × Value X) → List String → List (String × Value X)
  values m [] = []
  values m (k ∷ keys) =
      let rest = values m keys in
      elim (lookup k m) [ none ↦ rest | some v ↦ (k, cap_value v) ∷ rest ]

  abbrev pub changed_keys :
      (Option (Value X) → String) → List (String × Value X) → List (String × Value X) → List String
  changed_keys print old new = keep (key_differs print old new) (all_keys old new)

  unfoldable pub changed_entry :
      String → ParsedResource X → ParsedResource X → List String → Option (ChangedEntry X)
  changed_entry addr old new [] = none
  changed_entry addr old new (k ∷ keys) = some (record {
    address = addr;
    type = new.type;
    before = values old.attrs (k ∷ keys);
    after = values new.attrs (k ∷ keys);
  })

  -- `diffAttrs`, in the entry of its resource; none where no key differs
  unfoldable pub diff_attrs :
      (Option (Value X) → String)
      → String
      → ParsedResource X
      → ParsedResource X
      → Option (ChangedEntry X)
  unfolding changed_entry
  diff_attrs print addr old new =
      changed_entry addr old new (changed_keys print old.attrs new.attrs)

  abbrev entry : String × ParsedResource X → DiffEntry
  entry e = record { address = e.0; type = e.1.type; instance_count = e.1.count }

  -- the resources of one map under no address of the other
  abbrev pub only_in :
      List (String × ParsedResource X) → List (String × ParsedResource X) → List DiffEntry
  only_in m m' = map entry (keep (λ e. not (has e.0 m')) m)

  abbrev pub changed_at :
      (Option (Value X) → String)
      → List (String × ParsedResource X)
      → String × ParsedResource X
      → Option (ChangedEntry X)
  changed_at print old e = elim (lookup e.0 old) [
    | none ↦ none
    | some r ↦ diff_attrs print e.0 r e.1
  ]

  -- the third loop of `buildDiff`
  abbrev pub changes :
      (Option (Value X) → String)
      → List (String × ParsedResource X)
      → List (String × ParsedResource X)
      → List (ChangedEntry X)
  changes print old [] = []
  changes print old (e ∷ new) =
      let rest = changes print old new in
      elim (changed_at print old e) [ none ↦ rest | some c ↦ c ∷ rest ]

  -- `buildDiff`
  unfoldable pub build_diff :
      (Option (Value X) → String)
      → Option Bytes
      → Bytes
      → Option (Document X)
      → Option (Document X)
      → StateDiff X
  build_diff print from to old new = record {
    from_version_id = from;
    to_version_id = to;
    added = only_in (parse_state_resources new) (parse_state_resources old);
    removed = only_in (parse_state_resources old) (parse_state_resources new);
    changed = changes print (parse_state_resources old) (parse_state_resources new);
  }

module _ {X : Type 0} where
  unfoldable pub list_document : Option (Document X) → Result (List ResourceEntry)
  list_document none = http_error 500
  list_document (some doc) = ok (map resource_entry doc.resources)

-- ORDER BY serial DESC LIMIT 1 of the versions with a lower serial
abbrev lower : String → ℤ → Version → Bool
lower stack serial v = str_eq v.stack_id stack && ltb_ℤ v.serial serial

abbrev higher : Version → Option Version → Option Version
higher v none = some v
higher v (some b) = if ltb_ℤ v.serial b.serial then some b else some v

unfoldable pub predecessor : String → ℤ → List Version → Option Version
predecessor stack serial [] = none
predecessor stack serial (v ∷ rest) =
    let best = predecessor stack serial rest in if lower stack serial v then higher v best else best

module _ {C B : Type 0} where
  -- the stored copy of a version
  abbrev pub snapshot : String → Bytes → Store C B → Option (Snapshot B)
  snapshot stack id st =
      find? (λ s. str_eq s.stack_id stack && bytes_eq s.version_id id) st.snapshots

module _ {C B X : Type 0} (decode : B → Option (Document X))
    (print : Option (Value X) → String) where
  -- `GetVersionDiff` with the copy of the version and its predecessor
  diff_versions :
      String → Bytes → Option (Snapshot B) → Option Version → Store C B → Result (StateDiff X)
  diff_versions stack id none prev st = http_error 404
  diff_versions stack id (some to) none st = ok (build_diff print none id none (decode to.body))
  diff_versions stack id (some to) (some prev) st =
      elim (snapshot stack (extract_version_id prev.storage_key) st) [
        | none ↦ http_error 500
        | some from ↦ ok (build_diff print (some prev.id) id (decode from.body) (decode to.body))
      ]

  -- `GetVersionDiff`
  unfoldable pub get_version_diff : Caller → String → Bytes → Store C B → Result (StateDiff X)
  unfolding diff_versions
  get_version_diff c stack id st =
      if not (stack_in_org stack c.org_id st)
      then http_error 404
      else (elim (find? (λ v. bytes_eq v.id id && str_eq v.stack_id stack) st.versions) [
        | none ↦ http_error 404
        | some v ↦
            diff_versions stack id (snapshot stack id st) (predecessor stack v.serial st.versions)
              st
      ])

  -- `ListResources`
  unfoldable pub list_resources : Caller → String → Store C B → Result (List ResourceEntry)
  unfolding list_document get
  list_resources c stack st =
      if not (stack_in_org stack c.org_id st)
      then http_error 404
      else elim (get stack st) [ none ↦ ok [] | some body ↦ list_document (decode body) ]
