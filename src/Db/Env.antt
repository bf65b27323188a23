-- ===== src/Db/Env.antt =====
-- What a request brings beside the tables: the clock, the identifiers that the database draws, the
-- configuration and the caller.
use crucible_iap.Base.{ℕ, String, Bool, Option}
use crucible_iap.Base.Int.{ℤ}

-- Times are seconds. The calendar month of `now` comes with it: when it began, how many days it has
-- and which of them it is.
pub record Env : Type 0 where
  pub now : ℕ
  pub month_start : ℕ
  pub days_in_month : ℕ
  pub day_of_month : ℕ
  pub uuid : ℕ → String
  pub api_url : String
  pub base_url : String

-- The values that the authentication middleware put into the context; "" where it set none.
pub record Caller : Type 0 where
  pub user_id : String
  pub org_id : String
  pub sa_role : String

-- What a handler returns: a value, or an HTTP error with its status code.
pub data Result {ℓ} (A : Type ℓ) : Type ℓ where
  ok : A → Result A
  http_error : ℕ → Result A

-- float64: what the program does with a cost. `parse` is strconv.ParseFloat.
pub record Float64 (C : Type 0) : Type 0 where
  pub zero_cost : C
  pub of_int : ℤ → C
  pub add : C → C → C
  pub mul : C → C → C
  pub div : C → C → C
  pub gt : C → C → Bool
  pub eq : C → C → Bool
  pub parse : String → Option C
