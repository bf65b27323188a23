-- ===== src/Deps/Graph/Acyclic.antt =====
-- The graph of the edges between stacks: no path leads from a stack back to it.
use crucible_iap.Base.{
  String, ◌≡◌, sym, subst, ◌∙◌, ◌⊎◌, ◌≢◌, ◌↔◌, inl, inr, true, List, [], ◌∷◌, ◌++◌, arith, eq_iff,
  Bool-cases, Option-cases, any, any-append,
}
use crucible_iap.Db.{Dependency}
use crucible_iap.Deps.Graph.{is_edge, reachable, has_cycle}
use crucible_iap.Deps.Graph.Closure.{
  Edge, Reaches, one, more, reachable-Reaches_iff, reachable-returns,
}

-- `hasCycle` is answered, and it is true exactly when a path of edges leads from the new downstream
-- stack to the new upstream stack.
pub has_cycle-Reaches_iff :
    (up down : String) (es : List Dependency) → (has_cycle up down es ≡ true) ↔ Reaches es down up
unfolding has_cycle
has_cycle-Reaches_iff up down es = elim (Option-cases (reachable down es)) [
  | inl e ↦ absurd (ground (arith, reachable-returns down es))
  | inr (out, e) ↦ rw e (reachable-Reaches_iff es down up out e)
]

unfoldable pub Acyclic : List Dependency → Type 0
Acyclic es = (x : String) → ¬ Reaches es x x

Reaches-trans :
    {es : List Dependency} {a b c : String} → Reaches es a b → Reaches es b c → Reaches es a c
Reaches-trans r (one k) = more r k
Reaches-trans r (more s k) = more (Reaches-trans r s) k

-- a path with one more edge, from `u` to `d`
abbrev Detour : List Dependency → String → String → String → String → Type 0
Detour es u d x y = ((x ≡ u) ⊎ Reaches es x u) × ((d ≡ y) ⊎ Reaches es d y)

Edge-snoc :
    (es : List Dependency) (e : Dependency) (x y : String)
    → Edge (es ++ e ∷ []) x y
    → Edge es x y ⊎ (e.upstream_id ≡ x) × (e.downstream_id ≡ y)
Edge-snoc es e x y h = elim (Bool-cases (any (is_edge x y) es)) [
  | inl k ↦ inl k
  | inr k ↦ inr (
    ground (arith, any-append (is_edge x y) es (e ∷ []), eq_iff e.upstream_id x),
    ground (arith, any-append (is_edge x y) es (e ∷ []), eq_iff e.downstream_id y),
  )
]

Reaches-snoc :
    (es : List Dependency) (e : Dependency) (x y : String)
    → Reaches (es ++ e ∷ []) x y
    → Reaches es x y ⊎ Detour es e.upstream_id e.downstream_id x y
Reaches-snoc es e x y (one k) = elim (Edge-snoc es e x y k) [
  | inl old ↦ inl (one old)
  | inr (u, d) ↦ inr (inl (sym u), inl d)
]
Reaches-snoc es e x y (more {b} r k) = elim (Reaches-snoc es e x b r) [
  | inl p ↦ elim (Edge-snoc es e b y k) [
    | inl old ↦ inl (more p old)
    | inr (u, d) ↦ inr (inr (subst (Reaches es x) (sym u) p), inl d)
  ]
  | inr (p, q) ↦ elim (Edge-snoc es e b y k) [
    | inl old ↦ inr (
      p,
      inr (elim q [ inl d ↦ one (subst (λ z. Edge es z y) (sym d) old) | inr s ↦ more s old ]),
    )
    | inr (u, d) ↦ inr (p, inl d)
  ]
]

-- One more edge keeps the graph acyclic, unless it closes a path or joins a stack to itself.
pub Acyclic-snoc :
    (es : List Dependency) (e : Dependency)
    → e.upstream_id ≢ e.downstream_id
    → ¬ Reaches es e.downstream_id e.upstream_id
    → Acyclic es
    → Acyclic (es ++ e ∷ [])
unfolding Acyclic
Acyclic-snoc es e ne free ac x r = elim (Reaches-snoc es e x x r) [
  | inl old ↦ ac x old
  | inr (inl u, inl d) ↦ ne (sym u ∙ sym d)
  | inr (inl u, inr s) ↦ free (subst (Reaches es e.downstream_id) u s)
  | inr (inr p, inl d) ↦ free (subst (λ z. Reaches es z e.upstream_id) (sym d) p)
  | inr (inr p, inr s) ↦ free (Reaches-trans s p)
]

-- a table with no edge that the other does not have
Reaches-mono :
    (es es' : List Dependency)
    → ((x y : String) → Edge es' x y → Edge es x y)
    → (x y : String) → Reaches es' x y
    → Reaches es x y
Reaches-mono es es' h x y (one k) = one (h x y k)
Reaches-mono es es' h x y (more {b} r k) = more (Reaches-mono es es' h x b r) (h b y k)

pub Acyclic-mono :
    (es es' : List Dependency)
    → ((x y : String) → Edge es' x y → Edge es x y)
    → Acyclic es
    → Acyclic es'
unfolding Acyclic
Acyclic-mono es es' h ac x r = ac x (Reaches-mono es es' h x x r)
