-- ===== src/Tests.antt =====
-- The theorems at concrete inputs.
mod Fixtures
mod Decisions
mod Plans
mod Admissions
mod Agents
mod Graphs
mod States
mod Workers
mod Events
mod Hooks
mod Retained
mod Services
