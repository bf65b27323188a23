-- ===== src/Runs/PlanDiff/Laws.antt =====
-- What the difference of two plans says of each address, and of a plan against itself.
use crucible_iap.Base.{
  ℕ, String, ◌≡◌, refl, ◌∙◌, Bool, true, false, not, ◌&&◌, Option, none, some, List, [], ◌∷◌, ◌++◌,
  str_eq, eq_iff, arith, any, keep, length, ltb,
}
use crucible_iap.Base.Map.{lookup, holds}
use crucible_iap.Base.Bytes.{Value, text, take}
use crucible_iap.Runs.PlanDiff.{
  ResourceChange, PlanDiffEntry, PlanDiffChanged, actions_equal, index_plan_resources, attr,
  attr_differs, all_keys, diff_plan_attrs, attrs_changed, plan_resource_changed, build_plan_diff,
}
use crucible_iap.Runs.PlanDiff.Sides.{
  touches, differ, only_in-any, index_from-has, index_from-Keyed, index_from-Distinct, changes-any,
}

module _ {X : Type 0} (marshal : Option (Value X) → String) where
  -- The address of a change with an action in one plan only is new or removed; an address of both is
  -- changed exactly when `planResourceChanged` finds a difference in the changes that the plans keep.
  pub build_plan_diff-sides :
      (from_id to_id : String) (from to : List (ResourceChange X)) (a : String)
      → (any (λ e. str_eq e.address a) (build_plan_diff marshal from_id to_id from to).new
          ≡ (any (touches a) to && not (any (touches a) from)))
        × (any (λ e. str_eq e.address a) (build_plan_diff marshal from_id to_id from to).removed
            ≡ (any (touches a) from && not (any (touches a) to)))
        × (any (λ c. str_eq c.address a) (build_plan_diff marshal from_id to_id from to).changed
            ≡ holds
                (differ marshal (lookup a (index_plan_resources from)))
                (lookup a (index_plan_resources to)))
  unfolding build_plan_diff index_plan_resources
  build_plan_diff-sides from_id to_id from to a = (
    ground (
      arith,
      only_in-any (index_plan_resources to) (index_plan_resources from) a,
      index_from-has [] to a,
      index_from-has [] from a,
    ),
    ground (
      arith,
      only_in-any (index_plan_resources from) (index_plan_resources to) a,
      index_from-has [] to a,
      index_from-has [] from a,
    ),
    changes-any marshal (index_plan_resources from) (index_plan_resources to) a
        (index_from-Keyed [] to tt) (index_from-Distinct [] to tt),
  )

  actions_equal_refl : (l : List String) → actions_equal l l ≡ true
  unfolding actions_equal
  actions_equal_refl [] = refl
  actions_equal_refl (x ∷ l) = ground (arith, actions_equal_refl l, eq_iff x x)

  keep_none : (p : String → Bool) (l : List String) → ((k : String) → p k ≡ false) → keep p l ≡ []
  keep_none p [] h = refl
  keep_none p (k ∷ l) h = ground (arith, h k, keep_none p l h)

  attr_differs_same :
      (m : List (String × Value X)) (k : String) → attr_differs marshal m m k ≡ false
  attr_differs_same m k = ground (arith, eq_iff (marshal (attr k m)) (marshal (attr k m)))

  diff_plan_attrs_same : (o : Option (List (String × Value X))) → diff_plan_attrs marshal o o ≡ []
  diff_plan_attrs_same none = refl
  diff_plan_attrs_same (some m) =
      keep_none (attr_differs marshal m m) (all_keys m m) (attr_differs_same m)

  plan_resource_changed_same : (r : ResourceChange X) → plan_resource_changed marshal r r ≡ none
  unfolding plan_resource_changed attrs_changed
  plan_resource_changed_same r =
      rw (actions_equal_refl r.actions) (rw (diff_plan_attrs_same r.after) refl)

  differ_same : (o : Option (ResourceChange X)) → holds (differ marshal o) o ≡ false
  differ_same none = refl
  differ_same (some r) = rw (plan_resource_changed_same r) refl

  no_entry :
      (l : List PlanDiffEntry) → ((a : String) → any (λ e. str_eq e.address a) l ≡ false) → l ≡ []
  no_entry [] h = refl
  no_entry (x ∷ l) h = absurd (ground (arith, h x.address, eq_iff x.address x.address))

  no_change :
      (l : List (PlanDiffChanged X))
      → ((a : String) → any (λ e. str_eq e.address a) l ≡ false)
      → l ≡ []
  no_change [] h = refl
  no_change (x ∷ l) h = absurd (ground (arith, h x.address, eq_iff x.address x.address))

  -- The difference of a plan against itself is empty.
  pub build_plan_diff-same :
      (from_id to_id : String) (plan : List (ResourceChange X))
      → ((build_plan_diff marshal from_id to_id plan plan).new ≡ [])
        × ((build_plan_diff marshal from_id to_id plan plan).removed ≡ [])
        × ((build_plan_diff marshal from_id to_id plan plan).changed ≡ [])
  build_plan_diff-same from_id to_id plan = (
    no_entry _ (λ a. ground (arith, build_plan_diff-sides from_id to_id plan plan a)),
    no_entry _ (λ a. ground (arith, build_plan_diff-sides from_id to_id plan plan a)),
    no_change _ (λ a.
        (build_plan_diff-sides from_id to_id plan plan a).2
        ∙ differ_same (lookup a (index_plan_resources plan))),
  )

  -- Two texts of more than 512 bytes that agree on the first 512 are no difference, whatever follows.
  pub attr_differs_cut :
      (k : String) (s t : List ℕ) (rest rest' : List (String × Value X))
      → ltb 512 (length s) ≡ true
      → ltb 512 (length t) ≡ true
      → take 512 s ≡ take 512 t
      → attr_differs marshal ((k, text s) ∷ rest) ((k, text t) ∷ rest') k ≡ false
  attr_differs_cut k s t rest rest' h g e = rw ((eq_iff k k).1 refl) (
      rw (h, g, e)
        (ground (
          arith,
          eq_iff (marshal (some (text (take 512 t ++ (0xe2 ∷ 0x80 ∷ 0xa6 ∷ [])))))
              (marshal (some (text (take 512 t ++ (0xe2 ∷ 0x80 ∷ 0xa6 ∷ []))))),
        )))
