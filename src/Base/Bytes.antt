-- ===== src/Base/Bytes.antt =====
-- Go's strings as their bytes, and the values that JSON decodes to.
use Prim.Native.Nat.{ℕ, zero, suc}
use Prim.Native.Char.{code}
use Prim.Native.String.{String}
use mathlib.Core.Path.{◌≡◌, refl, ap}
use mathlib.Core.Bool.{Bool, true, false, ◌&&◌}
use mathlib.Core.List.{List, [], ◌∷◌, ◌++◌}
use native.Mathlib.Omega.{arith}
use crucible_iap.Base.Tests.{ltb, ◌==◌, if◌then◌else◌}
use crucible_iap.Base.Lists.{length}

abbrev pub Bytes : Type 0
Bytes = List ℕ

-- the bytes of an ASCII literal
abbrev pub codes : String → Bytes
codes String.[] = []
codes (String.◌∷◌ c s) = code c ∷ codes s

-- s[:n] and s[n:]
abbrev pub take : ℕ → Bytes → Bytes
take zero s = []
take (suc n) [] = []
take (suc n) (c ∷ s) = c ∷ take n s

abbrev pub drop : ℕ → Bytes → Bytes
drop zero s = s
drop (suc n) [] = []
drop (suc n) (c ∷ s) = drop n s

abbrev pub bytes_eq : Bytes → Bytes → Bool
bytes_eq [] [] = true
bytes_eq [] (b ∷ t) = false
bytes_eq (a ∷ s) [] = false
bytes_eq (a ∷ s) (b ∷ t) = a == b && bytes_eq s t

pub bytes_eq_refl : (s : Bytes) → bytes_eq s s ≡ true
bytes_eq_refl [] = refl
bytes_eq_refl (c ∷ s) = ground (arith, bytes_eq_refl s)

pub take-append : (s t : Bytes) → take (length s) (s ++ t) ≡ s
take-append [] t = refl
take-append (c ∷ s) t = ap (λ r. c ∷ r) (take-append s t)

pub drop-append : (s t : Bytes) → drop (length s) (s ++ t) ≡ t
drop-append [] t = refl
drop-append (c ∷ s) t = drop-append s t

-- An `any`: a text, or anything else that a decoder makes.
pub data Value (X : Type 0) : Type 0 where
  text : Bytes → Value X
  other : X → Value X

-- A text of more than 512 bytes is cut there, with an ellipsis in its place.
abbrev pub cap_text : Bytes → Bytes
cap_text s = if ltb 512 (length s) then take 512 s ++ (0xe2 ∷ 0x80 ∷ 0xa6 ∷ []) else s

module _ {X : Type 0} where
  abbrev pub cap_value : Value X → Value X
  cap_value (text s) = text (cap_text s)
  cap_value (other x) = other x
