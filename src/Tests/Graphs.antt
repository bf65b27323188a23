-- ===== src/Tests/Graphs.antt =====
-- The graph of the edges at concrete inputs.
use crucible_iap.Base.{ℕ, ◌≡◌, ◌↔◌, true, none, List, [], ◌∷◌, is_some}
use crucible_iap.Base.Int.{pos}
use crucible_iap.Db.{Dependency, null, Db}
use crucible_iap.Deps.Graph.{has_cycle, reachable}
use crucible_iap.Deps.Graph.Closure.{Reaches, reachable-returns}
use crucible_iap.Deps.Graph.Acyclic.{has_cycle-Reaches_iff}
use crucible_iap.Deps.Graph.Edges.{Valid, Valid-nil}
use crucible_iap.Deps.Graph.Requests.{GraphRequest, serve_all, serve_all-Valid}
use crucible_iap.Tests.Fixtures.{nat_cost, env, ann, edge, stack, db_of}

-- base → net → app
abbrev path : List Dependency
path = edge ∷ (record edge { upstream_id = "net"; downstream_id = "app" }) ∷ []

has_cycle-Reaches_iff_example : (has_cycle "app" "base" path ≡ true) ↔ Reaches path "base" "app"
has_cycle-Reaches_iff_example = has_cycle-Reaches_iff "app" "base" path

reachable-returns_example : is_some (reachable "base" path) ≡ true
reachable-returns_example = reachable-returns "base" path

abbrev two_stacks : Db ℕ
two_stacks = record (db_of [] (stack null none)) {
  stacks = stack null none ∷ (record (stack null none) { id = "app" }) ∷ [];
  dependencies = [];
}

-- the second request would close a cycle
abbrev requests : List GraphRequest
requests =
    GraphRequest.add ann "net" "app"
    ∷ GraphRequest.add ann "app" "net"
    ∷ GraphRequest.retry ann "net" "app" (pos 3) (pos 60)
    ∷ GraphRequest.remove ann "net" "app"
    ∷ []

serve_all-Valid_example : Valid (serve_all nat_cost env requests two_stacks).dependencies
serve_all-Valid_example = serve_all-Valid nat_cost env requests two_stacks Valid-nil
