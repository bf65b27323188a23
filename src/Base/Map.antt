-- ===== src/Base/Map.antt =====
-- Go's map with text keys: the list of its entries, in some order.
use Prim.Native.String.{String}
use mathlib.Core.Path.{◌≡◌, refl, sym, ap}
use mathlib.Core.Bool.{Bool, false, ◌&&◌}
use mathlib.Core.Logic.{inl, inr}
use mathlib.Core.Option.{Option, none, some}
use mathlib.Core.List.{List, [], ◌∷◌}
use native.Mathlib.Omega.{arith}
use text.Mathlib.Text.{◌==◌ as str_eq}
use text.Mathlib.TextEquality.{eq_iff}
use crucible_iap.Base.Tests.{if◌then◌else◌, is_some, Bool-cases}
use crucible_iap.Base.Lists.{any}

-- the test that an optional value satisfies
abbrev pub holds {ℓ} : {A : Type ℓ} → (A → Bool) → Option A → Bool
holds p none = false
holds p (some a) = p a

module _ {ℓ} {A : Type ℓ} where
  abbrev pub lookup : String → List (String × A) → Option A
  lookup k [] = none
  lookup k (e ∷ m) = if str_eq e.0 k then some e.1 else lookup k m

  -- m[k] = v
  abbrev pub put : String → A → List (String × A) → List (String × A)
  put k v [] = (k, v) ∷ []
  put k v (e ∷ m) = let rest = put k v m in if str_eq e.0 k then (k, v) ∷ m else e ∷ rest

  -- no key has two entries
  abbrev pub Distinct : List (String × A) → Type 0
  Distinct [] = Unit
  Distinct (e ∷ m) = (is_some (lookup e.0 m) ≡ false) × Distinct m

  -- `_, ok := m[k]`
  abbrev pub has : String → List (String × A) → Bool
  has k m = is_some (lookup k m)

module _ {ℓ} {A : Type ℓ} where
  pub lookup-put :
      (k j : String) (v : A) (m : List (String × A))
      → lookup j (put k v m) ≡ (if str_eq k j then some v else lookup j m)
  lookup-put k j v [] = refl
  lookup-put k j v (e ∷ m) =
      ground (arith, lookup-put k j v m, eq_iff e.0 k, eq_iff e.0 j, eq_iff k j)

  pub put-Distinct :
      (k : String) (v : A) (m : List (String × A)) → Distinct m → Distinct (put k v m)
  put-Distinct k v [] h = (refl, tt)
  put-Distinct k v (e ∷ m) (h, hs) = elim (Bool-cases (str_eq e.0 k)) [
    | inl s ↦ rw s (rw (sym ((eq_iff e.0 k).0 s)) h, hs)
    | inr s ↦
        rw s
          (ground (arith, lookup-put k e.0 v m, eq_iff k e.0, eq_iff e.0 k), put-Distinct k v m hs)
  ]

  -- The entry of a key is the one that a search over the entries meets.
  pub any-entry :
      (k : String) (p : A → Bool) (m : List (String × A))
      → Distinct m
      → any (λ e. str_eq e.0 k && p e.1) m ≡ holds p (lookup k m)
  any-entry k p [] h = refl
  any-entry k p (e ∷ m) (h, hs) = elim (Bool-cases (str_eq e.0 k)) [
    | inl s ↦
        ground (arith, any-entry k p m hs, ap (λ j. is_some (lookup j m)) ((eq_iff e.0 k).0 s))
    | inr s ↦ ground (arith, any-entry k p m hs)
  ]
