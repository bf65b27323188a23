-- ===== src/Policy.antt =====
-- internal/policy/policy.go: what an evaluation of Rego policies means for a run. The Rego engine is
-- a parameter: a prepared query is a function from the input to a result set, or an error.
pub mod Merging
use crucible_iap.Base.{
  String, Bool, true, false, ◌&&◌, ◌||◌, Option, none, some, List, [], ◌∷◌, ◌++◌, str_eq,
  if◌then◌else◌, any, keep,
}

-- a value that the engine returns, as Go holds it in an `any`
mutual
  pub data Json : Type 0 where
    null : Json
    bool : Bool → Json
    string : String → Json
    number : Json
    array : Items → Json
    object : Fields → Json

  pub data Items : Type 0 where
    nil : Items
    cons : Json → Items → Items

  pub data Fields : Type 0 where
    end : Fields
    field : String → Json → Fields → Fields

-- rego.ResultSet: for each result the values of its expressions
abbrev pub ResultSet : Type 0
ResultSet = List (List Json)

-- `Result`
pub record PolicyResult : Type 0 where
  pub allow : Bool
  pub deny : List String
  pub warn : List String
  pub trigger : List String
  pub require_approval : Bool

-- `val[key]`; a missing key is Go's nil
unfoldable pub field_of : String → Fields → Json
field_of key end = null
field_of key (field k v rest) = if str_eq k key then v else field_of key rest

unfoldable pub strings : Items → List String
strings nil = []
strings (cons (string s) rest) = s ∷ strings rest
strings (cons _ rest) = strings rest

unfoldable pub array_strings : Json → List String
array_strings (array items) = strings items
array_strings _ = []

unfoldable pub extract_strings : Fields → String → List String
unfolding field_of strings array_strings
extract_strings val key = array_strings (field_of key val)

unfoldable pub is_true : Json → Bool
is_true (bool b) = b
is_true _ = false

unfoldable pub extract_bool : Fields → String → Bool
unfolding field_of is_true
extract_bool val key = is_true (field_of key val)

abbrev pub is_nil : List String → Bool
is_nil [] = true
is_nil (s ∷ rest) = false

abbrev pub allowed : PolicyResult
allowed = record { allow = true; deny = []; warn = []; trigger = []; require_approval = false }

unfoldable pub parse_object : Json → PolicyResult
parse_object (object val) = record {
  allow = is_nil (extract_strings val "deny");
  deny = extract_strings val "deny";
  warn = extract_strings val "warn";
  trigger = extract_strings val "trigger";
  require_approval = extract_bool val "require_approval";
}
parse_object _ = allowed

unfoldable pub parse_result_set : ResultSet → PolicyResult
unfolding parse_object
parse_result_set [] = allowed
parse_result_set ([] ∷ rest) = allowed
parse_result_set ((v ∷ values) ∷ rest) = parse_object v

-- `Policy` with its prepared query, over the type of the inputs
pub record Policy (I : Type 0) : Type 0 where
  pub id : String
  pub name : String
  pub type : String
  pub query : I → Option ResultSet

-- `EvalRecord`
pub record EvalRecord : Type 0 where
  pub policy_id : String
  pub policy_name : String
  pub policy_type : String
  pub result : PolicyResult

abbrev pub merge : PolicyResult → PolicyResult → PolicyResult
merge m r = record {
  allow = m.allow;
  deny = m.deny ++ r.deny;
  warn = m.warn ++ r.warn;
  trigger = m.trigger ++ r.trigger;
  require_approval = m.require_approval || r.require_approval;
}

-- `if len(merged.Deny) > 0 { merged.Allow = false }`
abbrev pub settle : PolicyResult → PolicyResult
settle m = record m { allow = m.allow && is_nil m.deny }

module _ {I : Type 0} where
  -- `eval`
  abbrev pub eval : Policy I → I → Option PolicyResult
  eval p input = elim (p.query input) [ none ↦ none | some rs ↦ some (parse_result_set rs) ]

  abbrev pub record_of : Policy I → PolicyResult → EvalRecord
  record_of p r = record {
    policy_id = p.id;
    policy_name = p.name;
    policy_type = p.type;
    result = r;
  }

  -- The loop of `EvaluateByIDs` over the policies that match; an error ends it.
  unfoldable pub evaluate_all :
      List (Policy I) → I → PolicyResult → List EvalRecord → Option (PolicyResult × List EvalRecord)
  evaluate_all [] input merged records = some (settle merged, records)
  evaluate_all (p ∷ rest) input merged records = elim (eval p input) [
    | none ↦ none
    | some r ↦ evaluate_all rest input (merge merged r) (records ++ record_of p r ∷ [])
  ]

  -- `EvaluateByIDs`; the engine's map of policies is the list of its values
  unfoldable pub evaluate_by_ids :
      List (Policy I) → List String → I → Option (PolicyResult × List EvalRecord)
  unfolding evaluate_all
  evaluate_by_ids engine ids input =
      evaluate_all (keep (λ p. any (λ id. str_eq id p.id) ids) engine) input allowed []

  -- The loop of `Evaluate`, which keeps no records.
  unfoldable pub merge_all : List (Policy I) → I → PolicyResult → Option PolicyResult
  merge_all [] input merged = some (settle merged)
  merge_all (p ∷ rest) input merged = elim (eval p input) [
    | none ↦ none
    | some r ↦ merge_all rest input (merge merged r)
  ]

  unfoldable pub evaluate : List (Policy I) → String → I → Option PolicyResult
  unfolding merge_all
  evaluate engine type input = merge_all (keep (λ p. str_eq p.type type) engine) input allowed
