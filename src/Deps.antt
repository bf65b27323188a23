-- ===== src/Deps.antt =====
-- internal/deps: the dependency edges between stacks and their trigger predicates.
pub mod Predicate
pub mod Graph
