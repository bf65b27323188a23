-- ===== src/Base/Decimal.antt =====
-- strconv.FormatInt and strconv.ParseInt in base 10, for the int64 that are not negative.
use Prim.Native.Nat.{ℕ, zero, suc, ◌+◌, ◌-◌, ◌*◌, ◌/◌, ◌%◌, ◌^◌, ◌<◌}
use mathlib.Core.Path.{◌≡◌, refl}
use mathlib.Core.Logic.{◌≢◌, inl, inr}
use mathlib.Core.Bool.{Bool, true, false, ◌&&◌, ◌||◌}
use mathlib.Core.Option.{Option, none, some}
use mathlib.Core.List.{[], ◌∷◌}
use native.Mathlib.Omega.{arith}
use crucible_iap.Base.Tests.{ltb, leb, ◌==◌, if◌then◌else◌, Bool-cases}
use crucible_iap.Base.Lists.{all}
use crucible_iap.Base.Bytes.{Bytes}
use crucible_iap.Base.Int.{ℤ, pos, negsuc}

-- the digits of a number below 10 ^ fuel before `out`; none for 0
emit : ℕ → ℕ → Bytes → Bytes
emit zero n out = out
emit (suc fuel) n out =
    let rest = emit fuel (n / 10) ((b'0' + n % 10) ∷ out) in if n == 0 then out else rest

-- 20 digits hold every number below 2 ^ 64
unfoldable pub format : ℕ → Bytes
unfolding emit
format n = if n == 0 then b'0' ∷ [] else emit 20 n []

scan : Bytes → ℕ → Option ℕ
scan [] n = some n
scan (c ∷ s) n =
    let rest = scan s (n * 10 + (c - b'0')) in if ltb c b'0' || ltb b'9' c then none else rest

magnitude : Bytes → Option ℕ
magnitude [] = none
magnitude (c ∷ s) = scan (c ∷ s) 0

non_negative : Option ℕ → Option ℤ
non_negative none = none
non_negative (some n) = if ltb n (2 ^ 63) then some (pos n) else none

negative : Option ℕ → Option ℤ
negative none = none
negative (some n) =
    if n == 0 then some (pos 0) else if leb n (2 ^ 63) then some (negsuc (n - 1)) else none

-- strconv.ParseInt(s, 10, 64)
unfoldable pub parse_int : Bytes → Option ℤ
unfolding scan magnitude non_negative negative
parse_int [] = none
parse_int (c ∷ s) =
    if c == b'-'
    then negative (magnitude s)
    else if c == b'+'
    then non_negative (magnitude s)
    else non_negative (magnitude (c ∷ s))

tenth : (fuel n : ℕ) → n < 10 ^ suc fuel → n / 10 < 10 ^ fuel
tenth fuel n h = ground arith

scan_last : (n : ℕ) (out : Bytes) → scan ((b'0' + n % 10) ∷ out) (n / 10) ≡ scan out n
unfolding scan
scan_last n out = ground arith

scan-emit : (fuel n : ℕ) (out : Bytes) → n < 10 ^ fuel → scan (emit fuel n out) 0 ≡ scan out n
unfolding emit
scan-emit zero n out h = ground arith
scan-emit (suc fuel) n out h = ground (
  arith,
  scan-emit fuel (n / 10) ((b'0' + n % 10) ∷ out) (tenth fuel n h),
  scan_last n out,
  Bool-cases (n == 0),
)

abbrev pub is_digit : ℕ → Bool
is_digit c = leb b'0' c && leb c b'9'

emit-digits :
    (fuel n : ℕ) (out : Bytes) → all is_digit out ≡ true → all is_digit (emit fuel n out) ≡ true
unfolding emit
emit-digits zero n out h = h
emit-digits (suc fuel) n out h =
    ground
      (arith, emit-digits fuel (n / 10) ((b'0' + n % 10) ∷ out) (ground arith), Bool-cases (n == 0))

pub format-digits : (n : ℕ) → all is_digit (format n) ≡ true
unfolding format
format-digits n = ground (arith, emit-digits 20 n [] refl, Bool-cases (n == 0))

emit-ne-nil : (fuel n : ℕ) (c : ℕ) (out : Bytes) → emit fuel n (c ∷ out) ≢ []
unfolding emit
emit-ne-nil zero n c out h = ground arith
emit-ne-nil (suc fuel) n c out h =
    ground (arith, emit-ne-nil fuel (n / 10) (b'0' + n % 10) (c ∷ out), Bool-cases (n == 0))

-- a text of digits has no sign
parse_int-digits :
    (s : Bytes) (n : ℕ)
    → s ≢ []
    → all is_digit s ≡ true
    → scan s 0 ≡ some n
    → n < 2 ^ 63
    → parse_int s ≡ some (pos n)
unfolding parse_int magnitude non_negative
parse_int-digits [] n h d e l = absurd (h refl)
parse_int-digits (c ∷ s) n h d e l =
    let a : (c == b'-') ≡ false = ground arith in
    let b : (c == b'+') ≡ false = ground arith in
    let t : ltb n (2 ^ 63) ≡ true = ground arith in rw (a, parse_int) (rw b (rw e (rw t refl)))

emit-positive : (fuel n : ℕ) (out : Bytes) → (n == 0) ≡ false → emit (suc fuel) n out ≢ []
unfolding emit
emit-positive fuel n out z h = emit-ne-nil fuel (n / 10) (b'0' + n % 10) out (ground arith)

format-ne-nil : (n : ℕ) → format n ≢ []
unfolding format
format-ne-nil n h = elim (Bool-cases (n == 0)) [
  | inl z ↦ ground arith
  | inr z ↦ emit-positive 19 n [] z (ground arith)
]

scan-format : (n : ℕ) → n < 2 ^ 63 → scan (format n) 0 ≡ some n
unfolding format scan
scan-format n l =
    let e : scan (emit 20 n []) 0 ≡ some n = scan-emit 20 n [] (omega arith) in
    ground (arith, e, Bool-cases (n == 0))

-- A number is read back from its decimal print.
pub parse_int-format : (n : ℕ) → n < 2 ^ 63 → parse_int (format n) ≡ some (pos n)
parse_int-format n l =
    parse_int-digits (format n) n (format-ne-nil n) (format-digits n) (scan-format n l) l
