-- ===== src/State/Diff/Sides.antt =====
-- Which addresses the difference of two states names, and on which side.
use crucible_iap.Base.{
  String, ◌≡◌, refl, ap, ◌∙◌, inl, inr, Bool, true, false, not, ◌&&◌, Option, none, some, List, [],
  ◌∷◌, str_eq, eq_iff, arith, Bool-cases, Option-cases, any,
}
use crucible_iap.Base.Map.{lookup, put, has, holds, Distinct, any-entry, put-Distinct}
use crucible_iap.Base.Bytes.{Bytes, Value}
use crucible_iap.State.{StateResource, Document, is_managed}
use crucible_iap.State.Diff.{
  ParsedResource, address, parsed, parse_from, parse_state_resources, changed_keys, changed_entry,
  diff_attrs, only_in, changed_at, changes, build_diff,
}

abbrev pub some_key : List String → Bool
some_key [] = false
some_key (k ∷ keys) = true

module _ {X : Type 0} where
  parse_from-Distinct :
      (m : List (String × ParsedResource X)) (rs : List (StateResource X))
      → Distinct m
      → Distinct (parse_from m rs)
  parse_from-Distinct m [] d = d
  parse_from-Distinct m (r ∷ rs) d = elim (Bool-cases (is_managed r)) [
    | inl e ↦ rw e (
        parse_from-Distinct (put (address r) (parsed r) m) rs
          (put-Distinct (address r) (parsed r) m d))
    | inr e ↦ rw e (parse_from-Distinct m rs d)
  ]

  parse-Distinct : (doc : Option (Document X)) → Distinct (parse_state_resources doc)
  unfolding parse_state_resources
  parse-Distinct none = tt
  parse-Distinct (some doc) = parse_from-Distinct [] doc.resources tt

  only_in-any :
      (m m' : List (String × ParsedResource X)) (a : String)
      → any (λ e. str_eq e.address a) (only_in m m') ≡ (has a m && not (has a m'))
  only_in-any [] m' a = refl
  only_in-any (e ∷ m) m' a = elim (Bool-cases (str_eq e.0 a)) [
    | inl s ↦ ground (arith, only_in-any m m' a, ap (λ j. has j m') ((eq_iff e.0 a).0 s))
    | inr s ↦ ground (arith, only_in-any m m' a)
  ]

  changed_entry_lem :
      (a b : String) (old new : ParsedResource X) (keys : List String)
      → holds (λ c. str_eq c.address b) (changed_entry a old new keys)
        ≡ (str_eq a b && some_key keys)
  unfolding changed_entry
  changed_entry_lem a b old new [] = ground arith
  changed_entry_lem a b old new (k ∷ keys) = ground arith

  module _ (print : Option (Value X) → String) where
    -- some key of the merged attributes prints otherwise, or stands on one side only
    abbrev pub differ : Option (ParsedResource X) → ParsedResource X → Bool
    differ old new = holds (λ r. some_key (changed_keys print r.attrs new.attrs)) old

    diff_attrs_lem :
        (a b : String) (old new : ParsedResource X)
        → holds (λ c. str_eq c.address b) (diff_attrs print a old new)
          ≡ (str_eq a b && some_key (changed_keys print old.attrs new.attrs))
    unfolding diff_attrs
    diff_attrs_lem a b old new =
        changed_entry_lem a b old new (changed_keys print old.attrs new.attrs)

    changed_at_lem :
        (old : List (String × ParsedResource X)) (e : String × ParsedResource X) (a : String)
        → holds (λ c. str_eq c.address a) (changed_at print old e)
          ≡ (str_eq e.0 a && differ (lookup a old) e.1)
    changed_at_lem old e a = elim (Bool-cases (str_eq e.0 a)) [
      | inl s ↦ elim (Option-cases (lookup e.0 old)) [
        | inl f ↦ ground (arith, ap (λ j. lookup j old) ((eq_iff e.0 a).0 s))
        | inr (r, f) ↦
            ground (arith, diff_attrs_lem e.0 a r e.1, ap (λ j. lookup j old) ((eq_iff e.0 a).0 s))
      ]
      | inr s ↦ elim (Option-cases (lookup e.0 old)) [
        | inl f ↦ ground arith
        | inr (r, f) ↦ ground (arith, diff_attrs_lem e.0 a r e.1)
      ]
    ]

    changes-any :
        (old new : List (String × ParsedResource X)) (a : String)
        → any (λ c. str_eq c.address a) (changes print old new)
          ≡ any (λ e. str_eq e.0 a && differ (lookup a old) e.1) new
    changes-any old [] a = refl
    changes-any old (e ∷ new) a = elim (Option-cases (changed_at print old e)) [
      | inl f ↦ ground (arith, changes-any old new a, changed_at_lem old e a)
      | inr (c, f) ↦ ground (arith, changes-any old new a, changed_at_lem old e a)
    ]

    -- For every address, with the resources that the two states keep under it: it is added when only
    -- the new state has it, removed when only the old one has it, and changed exactly when both
    -- have it and a key of their attributes differs.
    pub build_diff-sides :
        (from : Option Bytes) (to : Bytes) (old new : Option (Document X)) (a : String)
        → (any (λ e. str_eq e.address a) (build_diff print from to old new).added
            ≡ (has a (parse_state_resources new) && not (has a (parse_state_resources old))))
          × (any (λ e. str_eq e.address a) (build_diff print from to old new).removed
              ≡ (has a (parse_state_resources old) && not (has a (parse_state_resources new))))
          × (any (λ c. str_eq c.address a) (build_diff print from to old new).changed
              ≡ holds
                  (differ (lookup a (parse_state_resources old)))
                  (lookup a (parse_state_resources new)))
    unfolding build_diff
    build_diff-sides from to old new a = (
      only_in-any (parse_state_resources new) (parse_state_resources old) a,
      only_in-any (parse_state_resources old) (parse_state_resources new) a,
      changes-any (parse_state_resources old) (parse_state_resources new) a
          ∙ any-entry a (differ (lookup a (parse_state_resources old))) (parse_state_resources new)
              (parse-Distinct new),
    )
