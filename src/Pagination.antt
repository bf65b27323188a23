-- ===== src/Pagination.antt =====
-- internal/pagination/pagination.go: the page of a list request, and the envelope of its response.
use crucible_iap.Base.{
  ℕ, ◌+◌, ◌≤◌, String, Bool, Option, none, some, List, ltb, if◌then◌else◌, arith, length,
  Bool-cases,
}
use crucible_iap.Base.Int.{ℤ, pos, negsuc}
use crucible_iap.Deps.Predicate.{atoi}

pub record Page : Type 0 where
  pub limit : ℕ
  pub offset : ℕ

pub record Meta : Type 0 where
  pub limit : ℕ
  pub offset : ℕ
  pub total : ℕ
  pub has_more : Bool

pub record Response {ℓ} (A : Type ℓ) : Type ℓ where
  pub data_rows : List A
  pub pagination : Meta

abbrev pub default_limit : ℕ
default_limit = 50

abbrev pub max_limit : ℕ
max_limit = 200

-- a number that parses and is positive, or else the default
abbrev positive_or : ℕ → Option ℤ → ℕ
positive_or d none = d
positive_or d (some (negsuc n)) = d
positive_or d (some (pos n)) = if ltb 0 n then n else d

-- a number that parses and is not negative, or else 0
abbrev natural_or_zero : Option ℤ → ℕ
natural_or_zero none = 0
natural_or_zero (some (negsuc n)) = 0
natural_or_zero (some (pos n)) = n

abbrev cap_limit : ℕ → ℕ
cap_limit n = if ltb max_limit n then max_limit else n

-- `Parse`, with the two query parameters; an empty one does not parse
unfoldable pub parse : String → String → Page
parse limit offset = record {
  limit = cap_limit (positive_or default_limit (atoi limit));
  offset = natural_or_zero (atoi offset);
}

module _ {ℓ} {A : Type ℓ} where
  -- `Wrap`
  unfoldable pub wrap : List A → Page → ℕ → Response A
  wrap rows p total = record {
    data_rows = rows;
    pagination = record {
      limit = p.limit;
      offset = p.offset;
      total = total;
      has_more = ltb (p.offset + length rows) total;
    };
  }

cap_limit-bounds : (n : ℕ) → 1 ≤ n → (1 ≤ cap_limit n) × (cap_limit n ≤ 200)
cap_limit-bounds n h =
    (ground (arith, Bool-cases (ltb 200 n)), ground (arith, Bool-cases (ltb 200 n)))

positive_or-bound : (o : Option ℤ) → 1 ≤ positive_or 50 o
positive_or-bound none = omega arith
positive_or-bound (some (negsuc n)) = omega arith
positive_or-bound (some (pos n)) = ground (arith, Bool-cases (ltb 0 n))

-- Whatever the request says, a page asks for 1 to 200 rows.
pub parse-bounds :
    (limit offset : String) → (1 ≤ (parse limit offset).limit) × ((parse limit offset).limit ≤ 200)
unfolding parse
parse-bounds limit offset =
    cap_limit-bounds (positive_or 50 (atoi limit)) (positive_or-bound (atoi limit))
