-- ===== src/Deps/Graph/Closure.antt =====
-- The recursive query: that it ends, and the stacks that it finds.
use crucible_iap.Base.{
  ℕ, zero, suc, ◌≤◌, ◌<◌, String, ◌≡◌, refl, sym, ap, subst, ◌∙◌, ◌⊎◌, ◌↔◌, inl, inr, true, false,
  not, ◌||◌, some, List, [], ◌∷◌, ◌++◌, arith, eq_iff, str_eq, Bool-cases, any, any-append,
  count_if, length, is_some,
}
use crucible_iap.Db.{Dependency}
use crucible_iap.Deps.Graph.{
  member, is_edge, leads_on, frontier, reachable_loop, children, reachable,
}

abbrev pub Edge : List Dependency → String → String → Type 0
Edge es a b = any (is_edge a b) es ≡ true

-- a path of at least one edge
pub data Reaches (es : List Dependency) (a : String) : String → Type 0 where
  one : {b : String} → Edge es a b → Reaches es a b
  more : {b c : String} → Reaches es a b → Edge es b c → Reaches es a c

-- what is still to be found
abbrev open_edges : List String → List Dependency → ℕ
open_edges result = count_if (λ e. not (member e.downstream_id result))

member-append : (x : String) (l m : List String) → member x (l ++ m) ≡ (member x l || member x m)
member-append x l m = any-append (λ y. str_eq y x) l m

-- A stack of the frontier comes from an edge out of the working table to a stack that is new.
frontier-Edge :
    (w result : List String) (es : List Dependency) (y : String)
    → member y (frontier w result es) ≡ true
    → (x : String) × (member x w ≡ true) × Edge es x y × (member y result ≡ false)
frontier-Edge w result [] y h = absurd (ground arith)
frontier-Edge w result (e ∷ es) y h = elim (Bool-cases (leads_on w result e)) [
  | inl l ↦ elim (Bool-cases (str_eq e.downstream_id y)) [
    | inl s ↦ (
      e.upstream_id,
      ground arith,
      ground (arith, eq_iff e.upstream_id e.upstream_id),
      rw (sym ((eq_iff e.downstream_id y).0 s)) (ground arith),
    )
    | inr s ↦
        let (x, m, k, f) = frontier-Edge w result es y (ground arith) in (x, m, ground arith, f)
  ]
  | inr l ↦ let (x, m, k, f) = frontier-Edge w result es y (ground arith) in (x, m, ground arith, f)
]

-- An edge out of the working table leads to a result or to the frontier.
Edge-frontier :
    (w result : List String) (es : List Dependency) (x y : String)
    → member x w ≡ true
    → Edge es x y
    → (member y result || member y (frontier w result es)) ≡ true
Edge-frontier w result [] x y m h = absurd (ground arith)
Edge-frontier w result (e ∷ es) x y m h = elim (Bool-cases (is_edge x y e)) [
  | inl s ↦ ground (arith, eq_iff e.upstream_id x, eq_iff e.downstream_id y, eq_iff y y)
  | inr s ↦ ground (arith, Edge-frontier w result es x y m)
]

open_edges-le :
    (result next : List String) (es : List Dependency)
    → open_edges (result ++ next) es ≤ open_edges result es
open_edges-le result next [] = omega arith
open_edges-le result next (e ∷ es) =
    ground (arith, member-append e.downstream_id result next, open_edges-le result next es)

-- A new result takes its edges off the count.
open_edges-lt :
    (result next : List String) (es : List Dependency) (x y : String)
    → member y result ≡ false
    → member y next ≡ true
    → Edge es x y
    → open_edges (result ++ next) es < open_edges result es
open_edges-lt result next [] x y f m h = absurd (ground arith)
open_edges-lt result next (e ∷ es) x y f m h = elim (Bool-cases (is_edge x y e)) [
  | inl s ↦
      let d : e.downstream_id ≡ y = (eq_iff e.downstream_id y).0 (ground arith) in
      ground (
        arith,
        member-append e.downstream_id result next,
        open_edges-le result next es,
        ap (λ z. member z result) d,
        ap (λ z. member z next) d,
      )
  | inr s ↦
      ground
        (arith, member-append e.downstream_id result next, open_edges-lt result next es x y f m)
]

frontier-lt :
    (w result : List String) (es : List Dependency) (y : String) (ys : List String)
    → frontier w result es ≡ y ∷ ys
    → open_edges (result ++ frontier w result es) es < open_edges result es
frontier-lt w result es y ys h =
    let there : member y (frontier w result es) ≡ true = rw h (ground (arith, eq_iff y y)) in
    let (x, m, k, f) = frontier-Edge w result es y there in
    open_edges-lt result (frontier w result es) es x y f there k

list-cases : (l : List String) → (l ≡ []) ⊎ ((y : String) × (ys : List String) × (l ≡ y ∷ ys))
list-cases [] = inl refl
list-cases (y ∷ ys) = inr (y, ys, refl)

reachable_loop_empty :
    (rounds : ℕ) (es : List Dependency) (w result : List String)
    → w ≡ []
    → is_some (reachable_loop rounds es w result) ≡ true
unfolding reachable_loop
reachable_loop_empty rounds es w result h = rw h refl

reachable_loop-returns :
    (rounds : ℕ) (es : List Dependency) (w result : List String)
    → open_edges result es < rounds
    → is_some (reachable_loop rounds es w result) ≡ true
unfolding reachable_loop
reachable_loop-returns rounds es [] result h = refl
reachable_loop-returns zero es (x ∷ xs) result h = absurd (omega arith)
reachable_loop-returns (suc rounds) es (x ∷ xs) result h =
    elim (list-cases (frontier (x ∷ xs) result es)) [
      | inl e ↦
          reachable_loop_empty rounds es (frontier (x ∷ xs) result es)
            (result ++ frontier (x ∷ xs) result es) e
      | inr (y, ys, e) ↦
          reachable_loop-returns rounds es (frontier (x ∷ xs) result es)
            (result ++ frontier (x ∷ xs) result es)
            (omega (arith, frontier-lt (x ∷ xs) result es y ys e))
    ]

open_edges-length : (result : List String) (es : List Dependency) → open_edges result es ≤ length es
open_edges-length result [] = omega arith
open_edges-length result (e ∷ es) = ground (arith, open_edges-length result es)

-- The recursive query ends: one round more than there are edges is enough.
pub reachable-returns : (a : String) (es : List Dependency) → is_some (reachable a es) ≡ true
unfolding reachable
reachable-returns a es =
    reachable_loop-returns (suc (length es)) es (children a es) (children a es)
      (omega (arith, open_edges-length (children a es) es))

module _ (es : List Dependency) (a : String) where
  -- what holds at the start of each round
  record Found (w result : List String) : Type 0 where
    pub sound : (y : String) → member y result ≡ true → Reaches es a y
    pub waiting : (y : String) → member y w ≡ true → member y result ≡ true
    pub first : (y : String) → Edge es a y → member y result ≡ true
    pub closed :
        (x y : String)
        → member x result ≡ true
        → Edge es x y
        → (member x w || member y result) ≡ true

  Found-step :
      (w result : List String)
      → Found w result
      → Found (frontier w result es) (result ++ frontier w result es)
  Found-step w result i = record {
    sound = λ y m. elim (Bool-cases (member y result)) [
      | inl r ↦ i.sound y r
      | inr r ↦
          let (x, xw, k, f) =
            frontier-Edge w result es y
              (ground (arith, member-append y result (frontier w result es))) in
          more (i.sound x (i.waiting x xw)) k
    ];
    waiting = λ y m. ground (arith, member-append y result (frontier w result es));
    first = λ y k. ground (arith, member-append y result (frontier w result es), i.first y k);
    closed = λ x y m k. ground (
      arith,
      member-append x result (frontier w result es),
      member-append y result (frontier w result es),
      i.closed x y,
      Edge-frontier w result es x y,
    );
  }

  loop-Found :
      (rounds : ℕ) (w result : List String) {out : List String}
      → Found w result
      → reachable_loop rounds es w result ≡ some out
      → Found [] out
  unfolding reachable_loop
  loop-Found rounds [] result {out} i e = subst (Found []) (ground arith) i
  loop-Found zero (x ∷ xs) result {out} i e = absurd (ground arith)
  loop-Found (suc rounds) (x ∷ xs) result {out} i e =
      loop-Found rounds (frontier (x ∷ xs) result es) (result ++ frontier (x ∷ xs) result es)
        {out = out} (Found-step (x ∷ xs) result i) e

children-Edge :
    (a : String) (es : List Dependency) (y : String)
    → member y (children a es) ≡ any (is_edge a y) es
children-Edge a [] y = refl
children-Edge a (e ∷ es) y = ground (arith, children-Edge a es y)

-- The query finds exactly the stacks that a path of edges leads to.
pub reachable-Reaches_iff :
    (es : List Dependency) (a y : String) (out : List String)
    → reachable a es ≡ some out
    → (member y out ≡ true) ↔ Reaches es a y
unfolding reachable
reachable-Reaches_iff es a y out e = (i.sound y, every y)
  where
    i : Found es a [] out
    i =
        loop-Found es a (suc (length es)) (children a es) (children a es) {out = out}
          (record {
            sound = λ z m. one (sym (children-Edge a es z) ∙ m);
            waiting = λ z m. m;
            first = λ z k. children-Edge a es z ∙ k;
            closed = λ x z m k. ground arith;
          })
          e

    every : (z : String) → Reaches es a z → member z out ≡ true
    every z (one k) = i.first z k
    every z (more {b} r k) = ground (arith, i.closed b z (every b r) k)
