-- ===== src/Runs.antt =====
-- internal/runs: the life of a run, from its creation to a terminal status.
pub mod Status
pub mod Chain
pub mod Review
pub mod Control
pub mod Create
pub mod Chatops
pub mod Internal
pub mod Decisions
pub mod Budget
pub mod Downstream
pub mod Drift
pub mod PlanPolicies
pub mod Finalize
pub mod PlanDiff
