-- ===== src/Base/Table.antt =====
-- A table is the list of its rows. These are the SQL statements that the program runs on one.
use mathlib.Core.Path.{◌≡◌, refl}
use mathlib.Core.Bool.{Bool, true, false}
use mathlib.Core.Option.{Option, none, some}
use mathlib.Core.Option
use mathlib.Core.List.{List, [], ◌∷◌}
use native.Mathlib.Omega.{arith}
use crucible_iap.Base.Tests.{if◌then◌else◌}
use crucible_iap.Base.Lists.{any, find?}

module _ {ℓ} {R : Type ℓ} where
  -- UPDATE … SET f WHERE p
  abbrev pub update_where : (R → Bool) → (R → R) → List R → List R
  update_where p f [] = []
  update_where p f (r ∷ rs) = (if p r then f r else r) ∷ update_where p f rs

module _ {ℓ} {R : Type ℓ} where
  -- A search by a test that the update leaves alone finds the same row, updated or not.
  pub find?-update_where :
      (key p : R → Bool) (f : R → R) (rs : List R)
      → ((r : R) → key (f r) ≡ key r)
      → find? key (update_where p f rs) ≡ Option.map (λ r. if p r then f r else r) (find? key rs)
  find?-update_where key p f [] h = refl
  find?-update_where key p f (r ∷ rs) h = ground (arith, h r, find?-update_where key p f rs h)

  -- An update that no row passes changes nothing.
  pub update_where_none :
      (p : R → Bool) (f : R → R) (rs : List R) → any p rs ≡ false → update_where p f rs ≡ rs
  update_where_none p f [] h = refl
  update_where_none p f (r ∷ rs) h = ground (arith, update_where_none p f rs)

  pub any-find? : (p : R → Bool) (rs : List R) {r : R} → find? p rs ≡ some r → any p rs ≡ true
  any-find? p [] h = ground arith
  any-find? p (x ∷ rs) {r} h = ground (arith, any-find? p rs {r = r})

-- Two tables row by row.
abbrev pub All₂ {ℓ} : {A : Type ℓ} → (A → A → Type 0) → List A → List A → Type 0
All₂ T [] [] = Unit
All₂ T [] (y ∷ ys) = ⊥
All₂ T (x ∷ xs) [] = ⊥
All₂ T (x ∷ xs) (y ∷ ys) = T x y × All₂ T xs ys
