-- ===== src/Tests/Retained.antt =====
-- Retention at concrete inputs.
use crucible_iap.Base.{ℕ, zero, suc, none, some, List, [], ◌∷◌}
use crucible_iap.Db.{finished, tracked, Run}
use crucible_iap.Tests.Fixtures.{run}

-- one run that ended later than 500 others
abbrev ended : ℕ → List (Run ℕ)
ended zero = record (run "late" finished tracked none) { finished_at = some 9 } ∷ []
ended (suc n) = record (run "early" finished tracked none) { finished_at = some 1 } ∷ ended n
