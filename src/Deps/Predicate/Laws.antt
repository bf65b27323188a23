-- ===== src/Deps/Predicate/Laws.antt =====
-- What a validated predicate decides.
use crucible_iap.Base.{
  String, ◌≡◌, refl, true, not, none, some, inl, inr, arith, eq_iff, Option-cases,
}
use crucible_iap.Db.Env.{Float64}
use crucible_iap.Deps.Predicate.{
  RunFields, is_set, supported_field, supported_op, Op, Field, validate, validate_field, matches,
  match_field,
}

module _ {C : Type 0} (F : Float64 C) where
  -- a value that the field accepts with `!=`
  field-complement :
      (f : Field) (value : String) (r : RunFields C)
      → validate_field F f Op.ne value ≡ none
      → match_field F r f (some Op.ne) value ≡ not (match_field F r f (some Op.eq) value)
  field-complement Field.type value r h = refl
  field-complement Field.is_drift value r h = refl
  field-complement Field.plan_add value r h = ground arith
  field-complement Field.plan_change value r h = ground arith
  field-complement Field.plan_destroy value r h = ground arith
  field-complement Field.cost_change value r h = ground arith

  -- On every run, a predicate that `Validate` accepts with `!=` matches exactly when the same
  -- predicate with `==` does not, if its field and its value are not empty.
  pub matches-complement :
      (field value : String) (r : RunFields C)
      → is_set (record { field = field; op = "!="; value = value }) ≡ true
      → validate F (record { field = field; op = "!="; value = value }) ≡ none
      → matches F (record { field = field; op = "!="; value = value }) r
        ≡ not (matches F (record { field = field; op = "=="; value = value }) r)
  unfolding validate matches is_set supported_op
  matches-complement field value r s h = elim (Option-cases (supported_field field)) [
    | inl e ↦ absurd (ground (arith, eq_iff "!=" ""))
    | inr (f, e) ↦ ground (arith, field-complement f value r, eq_iff "!=" "", eq_iff "==" "")
  ]
