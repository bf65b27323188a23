-- ===== src/Base/Sorting.antt =====
-- ORDER BY a number: insertion keeps rows with the same number in their order.
use Prim.Native.Nat.{ℕ, zero, suc, ◌≤◌}
use mathlib.Core.Path.{◌≡◌, refl}
use mathlib.Core.Logic.{inl, inr}
use mathlib.Core.List.{List, [], ◌∷◌}
use native.Mathlib.Omega.{arith}
use crucible_iap.Base.Tests.{ltb, leb, if◌then◌else◌, Bool-cases, leb→le}
use crucible_iap.Base.Lists.{keep, length}

module _ {ℓ} {A : Type ℓ} where
  -- LIMIT n
  abbrev pub first : ℕ → List A → List A
  first zero xs = []
  first (suc n) [] = []
  first (suc n) (x ∷ xs) = x ∷ first n xs

  abbrev pub insert_by : (A → ℕ) → A → List A → List A
  insert_by key x [] = x ∷ []
  insert_by key x (y ∷ ys) =
      let rest = insert_by key x ys in if leb (key x) (key y) then x ∷ y ∷ ys else y ∷ rest

  abbrev pub sort_by : (A → ℕ) → List A → List A
  sort_by key [] = []
  sort_by key (x ∷ xs) = insert_by key x (sort_by key xs)

  abbrev AtLeast : (A → ℕ) → ℕ → List A → Type 0
  AtLeast key n [] = Unit
  AtLeast key n (x ∷ xs) = (n ≤ key x) × AtLeast key n xs

  abbrev pub Sorted : (A → ℕ) → List A → Type 0
  Sorted key [] = Unit
  Sorted key (x ∷ xs) = AtLeast key (key x) xs × Sorted key xs

module _ {ℓ} {A : Type ℓ} (key : A → ℕ) where
  lower : (m n : ℕ) (xs : List A) → m ≤ n → AtLeast key n xs → AtLeast key m xs
  lower m n [] h k = tt
  lower m n (x ∷ xs) h (a, b) = (omega arith, lower m n xs h b)

  insert_by-AtLeast :
      (n : ℕ) (x : A) (ys : List A)
      → n ≤ key x
      → AtLeast key n ys
      → AtLeast key n (insert_by key x ys)
  insert_by-AtLeast n x [] h k = (h, tt)
  insert_by-AtLeast n x (y ∷ ys) h (a, b) = elim (Bool-cases (leb (key x) (key y))) [
    | inl t ↦ rw t (h, (a, b))
    | inr t ↦ rw t (a, insert_by-AtLeast n x ys h b)
  ]

  insert_by-Sorted : (x : A) (ys : List A) → Sorted key ys → Sorted key (insert_by key x ys)
  insert_by-Sorted x [] k = (tt, tt)
  insert_by-Sorted x (y ∷ ys) (a, b) = elim (Bool-cases (leb (key x) (key y))) [
    | inl t ↦
        rw t (
          (leb→le (key x) (key y) t, lower (key x) (key y) ys (leb→le (key x) (key y) t) a),
          (a, b),
        )
    | inr t ↦ rw t (insert_by-AtLeast (key y) x ys (ground (arith, t)) a, insert_by-Sorted x ys b)
  ]

  pub sort_by-Sorted : (xs : List A) → Sorted key (sort_by key xs)
  sort_by-Sorted [] = tt
  sort_by-Sorted (x ∷ xs) = insert_by-Sorted x (sort_by key xs) (sort_by-Sorted xs)

  -- the rows below a bound
  abbrev pub below : ℕ → List A → List A
  below c xs = keep (λ x. ltb (key x) c) xs

  below-none : (c n : ℕ) (xs : List A) → c ≤ n → AtLeast key n xs → below c xs ≡ []
  below-none c n [] h k = refl
  below-none c n (x ∷ xs) h (a, b) = ground (arith, below-none c n xs h b)

  below-insert_by :
      (c : ℕ) (x : A) (ys : List A)
      → Sorted key ys
      → below c (insert_by key x ys)
        ≡ (if ltb (key x) c then insert_by key x (below c ys) else below c ys)
  below-insert_by c x [] k = refl
  below-insert_by c x (y ∷ ys) (a, b) = elim (Bool-cases (ltb (key y) c)) [
    | inl l ↦ ground (arith, below-insert_by c x ys b, l)
    | inr l ↦
        ground (arith, below-insert_by c x ys b, l, below-none c (key y) ys (ground (arith, l)) a)
  ]

  -- Only the rows below a bound are sorted, or all are and then the rows below it are taken.
  pub below-sort_by : (c : ℕ) (xs : List A) → below c (sort_by key xs) ≡ sort_by key (below c xs)
  below-sort_by c [] = refl
  below-sort_by c (x ∷ xs) = ground (
    arith,
    below-insert_by c x (sort_by key xs) (sort_by-Sorted xs),
    below-sort_by c xs,
    Bool-cases (ltb (key x) c),
  )

  -- The first rows in order are below a bound where enough rows are.
  pub first-below :
      (n c : ℕ) (xs : List A)
      → Sorted key xs
      → n ≤ length (below c xs)
      → first n (below c xs) ≡ first n xs
  first-below zero c xs k h = refl
  first-below (suc n) c [] k h = refl
  first-below (suc n) c (x ∷ xs) (a, b) h = elim (Bool-cases (ltb (key x) c)) [
    | inl l ↦ ground (arith, l, first-below n c xs b (ground (arith, l)))
    | inr l ↦ absurd (ground (arith, l, below-none c (key x) xs (ground (arith, l)) a))
  ]

  length-insert_by : (x : A) (ys : List A) → length (insert_by key x ys) ≡ suc (length ys)
  length-insert_by x [] = refl
  length-insert_by x (y ∷ ys) = ground (arith, length-insert_by x ys)

  pub length-sort_by : (xs : List A) → length (sort_by key xs) ≡ length xs
  length-sort_by [] = refl
  length-sort_by (x ∷ xs) = omega (arith, length-insert_by x (sort_by key xs), length-sort_by xs)
