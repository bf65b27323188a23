-- ===== src/Deps/Predicate.antt =====
-- internal/deps/predicate.go: the condition on an edge that decides whether a finished upstream run
-- triggers the downstream stack.
pub mod Laws
use Prim.Native.Char.{code}
use crucible_iap.Base.{
  ℕ, suc, ◌+◌, ◌-◌, ◌*◌, ◌^◌, String, Bool, true, false, not, ◌&&◌, ◌||◌, Option, none, some, List,
  [], ◌∷◌, str_eq, leb, ltb, ◌==◌, if◌then◌else◌, is_some,
}
use crucible_iap.Base.Int.{ℤ, pos, negsuc}
use crucible_iap.Db.Env.{Float64}

pub record RunFields (C : Type 0) : Type 0 where
  pub type : String
  pub plan_add : ℤ
  pub plan_change : ℤ
  pub plan_destroy : ℤ
  pub cost_change : C
  pub is_drift : Bool

pub record Predicate : Type 0 where
  pub field : String
  pub op : String
  pub value : String

unfoldable pub is_set : Predicate → Bool
is_set p = not (str_eq p.field "") && not (str_eq p.op "") && not (str_eq p.value "")

-- the keys of `supportedFields`, which are those of `fieldValidators`, and what each one holds
pub data Field : Type 0 where
  type plan_add plan_change plan_destroy cost_change is_drift : Field

unfoldable pub supported_field : String → Option Field
supported_field s =
    if str_eq s "type"
    then some Field.type
    else if str_eq s "plan_add"
    then some Field.plan_add
    else if str_eq s "plan_change"
    then some Field.plan_change
    else if str_eq s "plan_destroy"
    then some Field.plan_destroy
    else if str_eq s "cost_change"
    then some Field.cost_change
    else if str_eq s "is_drift"
    then some Field.is_drift
    else none

pub data Op : Type 0 where
  eq ne gt lt ge le : Op

-- the keys of `supportedOps`, which are the cases of `compareOrderable`
unfoldable pub supported_op : String → Option Op
supported_op s =
    if str_eq s "=="
    then some Op.eq
    else if str_eq s "!="
    then some Op.ne
    else if str_eq s ">"
    then some Op.gt
    else if str_eq s "<"
    then some Op.lt
    else if str_eq s ">="
    then some Op.ge
    else if str_eq s "<="
    then some Op.le
    else none

-- strconv.Atoi, for a 64-bit int
digits_from : ℕ → String → Option ℕ
digits_from n String.[] = some n
digits_from n (String.◌∷◌ c s) =
    if leb b'0' (code c) && leb (code c) b'9'
    then digits_from (n * 10 + (code c - b'0')) s
    else none

magnitude : String → Option ℕ
magnitude String.[] = none
magnitude (String.◌∷◌ c s) = digits_from 0 (String.◌∷◌ c s)

non_negative : Option ℕ → Option ℤ
non_negative none = none
non_negative (some n) = if ltb n (2 ^ 63) then some (pos n) else none

negative : Option ℕ → Option ℤ
negative none = none
negative (some n) =
    if n == 0 then some (pos 0) else if leb n (2 ^ 63) then some (negsuc (n - 1)) else none

unfoldable pub atoi : String → Option ℤ
unfolding digits_from magnitude non_negative negative
atoi String.[] = none
atoi (String.◌∷◌ c s) =
    if code c == b'-'
    then negative (magnitude s)
    else if code c == b'+'
    then non_negative (magnitude s)
    else non_negative (magnitude (String.◌∷◌ c s))

-- the error texts of `Validate`
pub data Invalid : Type 0 where
  field_unsupported op_unsupported not_an_integer not_a_number : Invalid
  is_drift_op not_a_boolean type_op : Invalid

abbrev pub is_equality : Op → Bool
is_equality Op.eq = true
is_equality Op.ne = true
is_equality _ = false

abbrev validate_plan_value : String → Option Invalid
validate_plan_value value = if is_some (atoi value) then none else some not_an_integer

abbrev validate_bool_value : Op → String → Option Invalid
validate_bool_value op value =
    if not (is_equality op)
    then some is_drift_op
    else if not (str_eq value "true" || str_eq value "false")
    then some not_a_boolean
    else none

module _ {C : Type 0} (F : Float64 C) where
  -- `fieldValidators[p.Field](p.Op, p.Value)`
  abbrev validate_field : Field → Op → String → Option Invalid
  validate_field Field.type op value = if is_equality op then none else some type_op
  validate_field Field.plan_add op value = validate_plan_value value
  validate_field Field.plan_change op value = validate_plan_value value
  validate_field Field.plan_destroy op value = validate_plan_value value
  validate_field Field.cost_change op value =
      if is_some (F.parse value) then none else some not_a_number
  validate_field Field.is_drift op value = validate_bool_value op value

  -- `Validate`; `none` is Go's nil
  unfoldable pub validate : Predicate → Option Invalid
  validate p = if not (is_set p) then none else (elim (supported_field p.field) [
    | none ↦ some field_unsupported
    | some f ↦ elim (supported_op p.op) [
      | none ↦ some op_unsupported
      | some op ↦ validate_field f op p.value
    ]
  ])

-- strconv.ParseBool, whose value is false where it fails
unfoldable pub parse_bool : String → Bool
parse_bool s =
    str_eq s "1"
    || str_eq s "t"
    || str_eq s "T"
    || str_eq s "true"
    || str_eq s "TRUE"
    || str_eq s "True"

abbrev same : Bool → Bool → Bool
same true b = b
same false b = not b

-- `compareString`
abbrev compare_string : String → Option Op → String → Bool
compare_string got (some Op.eq) want = str_eq got want
compare_string got (some Op.ne) want = not (str_eq got want)
compare_string got _ want = false

abbrev compare_drift : Bool → Option Op → String → Bool
compare_drift got (some Op.eq) want = same got (parse_bool want)
compare_drift got (some Op.ne) want = not (same got (parse_bool want))
compare_drift got _ want = false

module _ {C : Type 0} (F : Float64 C) where
  -- `compareOrderable`; `>=` is "greater or equal" on floats, not "not less"
  abbrev pub compare_orderable : C → Option Op → C → Bool
  compare_orderable got none want = false
  compare_orderable got (some Op.eq) want = F.eq got want
  compare_orderable got (some Op.ne) want = not (F.eq got want)
  compare_orderable got (some Op.gt) want = F.gt got want
  compare_orderable got (some Op.lt) want = F.gt want got
  compare_orderable got (some Op.ge) want = F.gt got want || F.eq got want
  compare_orderable got (some Op.le) want = F.gt want got || F.eq got want

  -- `compareInt`
  abbrev pub compare_int : ℤ → Option Op → String → Bool
  compare_int got op want = elim (atoi want) [
    | none ↦ false
    | some n ↦ compare_orderable (F.of_int got) op (F.of_int n)
  ]

  -- `compareFloat`
  abbrev compare_float : C → Option Op → String → Bool
  compare_float got op want = elim (F.parse want) [
    | none ↦ false
    | some n ↦ compare_orderable got op n
  ]

  -- the `switch` of `Matches`
  abbrev match_field : RunFields C → Field → Option Op → String → Bool
  match_field r Field.type op value = compare_string r.type op value
  match_field r Field.plan_add op value = compare_int r.plan_add op value
  match_field r Field.plan_change op value = compare_int r.plan_change op value
  match_field r Field.plan_destroy op value = compare_int r.plan_destroy op value
  match_field r Field.cost_change op value = compare_float r.cost_change op value
  match_field r Field.is_drift op value = compare_drift r.is_drift op value

  -- `Matches`
  unfoldable pub matches : Predicate → RunFields C → Bool
  matches p r = if not (is_set p) then true else (elim (supported_field p.field) [
    | none ↦ false
    | some f ↦ match_field r f (supported_op p.op) p.value
  ])
