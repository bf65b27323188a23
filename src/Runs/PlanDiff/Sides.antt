-- ===== src/Runs/PlanDiff/Sides.antt =====
-- Which addresses the difference of two plans names, and on which side.
use crucible_iap.Base.{
  String, ◌≡◌, refl, sym, ap, ◌∙◌, inl, inr, Bool, false, not, ◌&&◌, ◌||◌, Option, some, List, [],
  ◌∷◌, str_eq, eq_iff, arith, Bool-cases, Option-cases, any, All, is_some,
}
use crucible_iap.Base.Map.{lookup, put, has, holds, Distinct, lookup-put, put-Distinct}
use crucible_iap.Base.Bytes.{Value}
use crucible_iap.Runs.PlanDiff.{
  ResourceChange, PlanDiffChanged, is_no_op, actions_equal, index_from, only_in, diff_plan_attrs,
  attrs_changed, plan_resource_changed, changed_at, changes,
}

module _ {X : Type 0} where
  -- a change at an address that does something
  abbrev pub touches : String → ResourceChange X → Bool
  touches a r = not (is_no_op r.actions) && str_eq r.address a

  pub index_from-has :
      (m : List (String × ResourceChange X)) (l : List (ResourceChange X)) (a : String)
      → has a (index_from m l) ≡ (has a m || any (touches a) l)
  index_from-has m [] a = ground arith
  index_from-has m (r ∷ l) a = elim (Bool-cases (is_no_op r.actions)) [
    | inl e ↦ rw e (index_from-has m l a)
    | inr e ↦
        rw e (index_from-has (put r.address r m) l a ∙ ground (arith, lookup-put r.address a r m))
  ]

  -- a map from addresses
  abbrev pub Keyed : List (String × ResourceChange X) → Type 0
  Keyed = All (λ e. e.1.address ≡ e.0)

  put-Keyed :
      (r : ResourceChange X) (m : List (String × ResourceChange X))
      → Keyed m
      → Keyed (put r.address r m)
  put-Keyed r [] k = (refl, tt)
  put-Keyed r (e ∷ m) (k, ks) = elim (Bool-cases (str_eq e.0 r.address)) [
    | inl s ↦ rw s (refl, ks)
    | inr s ↦ rw s (k, put-Keyed r m ks)
  ]

  pub index_from-Keyed :
      (m : List (String × ResourceChange X)) (l : List (ResourceChange X))
      → Keyed m
      → Keyed (index_from m l)
  index_from-Keyed m [] k = k
  index_from-Keyed m (r ∷ l) k = elim (Bool-cases (is_no_op r.actions)) [
    | inl e ↦ rw e (index_from-Keyed m l k)
    | inr e ↦ rw e (index_from-Keyed (put r.address r m) l (put-Keyed r m k))
  ]

  pub index_from-Distinct :
      (m : List (String × ResourceChange X)) (l : List (ResourceChange X))
      → Distinct m
      → Distinct (index_from m l)
  index_from-Distinct m [] k = k
  index_from-Distinct m (r ∷ l) k = elim (Bool-cases (is_no_op r.actions)) [
    | inl e ↦ rw e (index_from-Distinct m l k)
    | inr e ↦ rw e (index_from-Distinct (put r.address r m) l (put-Distinct r.address r m k))
  ]

  pub only_in-any :
      (m m' : List (String × ResourceChange X)) (a : String)
      → any (λ e. str_eq e.address a) (only_in m m') ≡ (has a m && not (has a m'))
  only_in-any [] m' a = refl
  only_in-any (e ∷ m) m' a = elim (Bool-cases (str_eq e.0 a)) [
    | inl s ↦ ground (arith, only_in-any m m' a, ap (λ j. has j m') ((eq_iff e.0 a).0 s))
    | inr s ↦ ground (arith, only_in-any m m' a)
  ]

  attrs_changed-address :
      (fr tr : ResourceChange X) (keys : List String) {c : PlanDiffChanged X}
      → attrs_changed fr tr keys ≡ some c
      → c.address ≡ tr.address
  unfolding attrs_changed
  attrs_changed-address fr tr [] e = absurd (ground arith)
  attrs_changed-address fr tr (k ∷ keys) e = ground arith

  module _ (marshal : Option (Value X) → String) where
    changed-address :
        (fr tr : ResourceChange X) {c : PlanDiffChanged X}
        → plan_resource_changed marshal fr tr ≡ some c
        → c.address ≡ tr.address
    unfolding plan_resource_changed
    changed-address fr tr {c} e = elim (Bool-cases (actions_equal fr.actions tr.actions)) [
      | inr f ↦ ground arith
      | inl f ↦
          attrs_changed-address fr tr (diff_plan_attrs marshal fr.after tr.after) {c = c}
            (ground arith)
    ]

    -- the test of the third loop
    abbrev pub differ : Option (ResourceChange X) → ResourceChange X → Bool
    differ fr tr = holds (λ f. is_some (plan_resource_changed marshal f tr)) fr

    changed_at-any :
        (from : List (String × ResourceChange X)) (e : String × ResourceChange X)
        {c : PlanDiffChanged X}
        → changed_at marshal from e ≡ some c
        → c.address ≡ e.1.address
    changed_at-any from e {c} h = elim (Option-cases (lookup e.0 from)) [
      | inl f ↦ absurd (ground arith)
      | inr (fr, f) ↦ changed-address fr e.1 {c = c} (ground arith)
    ]

    changed_at-differ :
        (from : List (String × ResourceChange X)) (e : String × ResourceChange X)
        → is_some (changed_at marshal from e) ≡ differ (lookup e.0 from) e.1
    changed_at-differ from e = elim (Option-cases (lookup e.0 from)) [
      | inl f ↦ ground arith
      | inr (fr, f) ↦ ground arith
    ]

    pub changes-any :
        (from to : List (String × ResourceChange X)) (a : String)
        → Keyed to
        → Distinct to
        → any (λ c. str_eq c.address a) (changes marshal from to)
          ≡ holds (differ (lookup a from)) (lookup a to)
    changes-any from [] a k d = refl
    changes-any from (e ∷ to) a (k, ks) (d, ds) = elim (Bool-cases (str_eq e.0 a)) [
      | inl s ↦
          let same = (eq_iff e.0 a).0 s in
          let gone : is_some (lookup a to) ≡ false = ap (λ j. has j to) (sym same) ∙ d in
          elim (Option-cases (changed_at marshal from e)) [
            | inl f ↦ ground (
              arith,
              changes-any from to a ks ds,
              changed_at-differ from e,
              ap (λ j. differ (lookup j from) e.1) same,
            )
            | inr (c, f) ↦ ground (
              arith,
              changed_at-differ from e,
              changed_at-any from e {c = c} f,
              ap (λ j. differ (lookup j from) e.1) same,
              eq_iff c.address a,
            )
          ]
      | inr s ↦ elim (Option-cases (changed_at marshal from e)) [
        | inl f ↦ ground (arith, changes-any from to a ks ds)
        | inr (c, f) ↦ ground (
          arith,
          changes-any from to a ks ds,
          changed_at-any from e {c = c} f,
          eq_iff c.address a,
          eq_iff e.0 a,
        )
      ]
    ]
