-- ===== src/Deps/Graph/Edges.antt =====
-- Tables of edges that are acyclic, within the limits of the columns and without duplicates.
use crucible_iap.Base.{
  ◌≤◌, String, ◌≡◌, refl, sym, ◌∙◌, inl, inr, Bool, true, false, List, [], ◌∷◌, ◌++◌, arith, eq_iff,
  Bool-cases, any, All, any-append, keep, update_where,
}
use crucible_iap.Db.{Dependency}
use crucible_iap.Deps.Graph.{is_edge}
use crucible_iap.Deps.Graph.Closure.{Reaches, one, more}
use crucible_iap.Deps.Graph.Acyclic.{Acyclic, Acyclic-mono}

-- a retry policy within its limits
abbrev pub Bounded : Dependency → Type 0
Bounded e = (e.retry_count ≤ 10) × (1 ≤ e.retry_backoff_seconds) × (e.retry_backoff_seconds ≤ 3600)

-- no two edges between the same two stacks
abbrev pub Single : List Dependency → Type 0
Single [] = Unit
Single (e ∷ es) = (any (is_edge e.upstream_id e.downstream_id) es ≡ false) × Single es

pub record Valid (es : List Dependency) : Type 0 where
  pub acyclic : Acyclic es
  pub bounded : All Bounded es
  pub single : Single es

no_path : (x y : String) → ¬ Reaches [] x y
no_path x y (one k) = absurd (ground arith)
no_path x y (more r k) = absurd (ground arith)

-- the table without edges
pub Valid-nil : Valid []
unfolding Acyclic
Valid-nil = record { acyclic = λ x. no_path x x; bounded = tt; single = tt }

pub Bounded-snoc :
    (es : List Dependency) (e : Dependency)
    → All Bounded es
    → Bounded e
    → All Bounded (es ++ e ∷ [])
Bounded-snoc [] e h b = (b, tt)
Bounded-snoc (x ∷ es) e (h, hs) b = (h, Bounded-snoc es e hs b)

pub Single-snoc :
    (es : List Dependency) (e : Dependency)
    → Single es
    → any (is_edge e.upstream_id e.downstream_id) es ≡ false
    → Single (es ++ e ∷ [])
Single-snoc [] e h n = (refl, tt)
Single-snoc (x ∷ es) e (h, hs) n = (
  ground (
    arith,
    any-append (is_edge x.upstream_id x.downstream_id) es (e ∷ []),
    eq_iff e.upstream_id x.upstream_id,
    eq_iff e.downstream_id x.downstream_id,
    eq_iff x.upstream_id e.upstream_id,
    eq_iff x.downstream_id e.downstream_id,
  ),
  Single-snoc es e hs (ground arith),
)

pub any-keep :
    (p q : Dependency → Bool) (es : List Dependency) → any q (keep p es) ≡ true → any q es ≡ true
any-keep p q [] h = h
any-keep p q (x ∷ es) h = ground (arith, any-keep p q es)

pub Bounded-keep :
    (p : Dependency → Bool) (es : List Dependency) → All Bounded es → All Bounded (keep p es)
Bounded-keep p [] h = tt
Bounded-keep p (x ∷ es) (h, hs) = elim (Bool-cases (p x)) [
  | inl e ↦ rw e (h, Bounded-keep p es hs)
  | inr e ↦ rw e (Bounded-keep p es hs)
]

pub Single-keep : (p : Dependency → Bool) (es : List Dependency) → Single es → Single (keep p es)
Single-keep p [] h = tt
Single-keep p (x ∷ es) (h, hs) = elim (Bool-cases (p x)) [
  | inl e ↦
      rw e
        (ground (arith, any-keep p (is_edge x.upstream_id x.downstream_id) es), Single-keep p es hs)
  | inr e ↦ rw e (Single-keep p es hs)
]

-- an update that keeps the two ends of an edge
abbrev pub Ends : (Dependency → Dependency) → Type 0
Ends f =
    (e : Dependency) → ((f e).upstream_id ≡ e.upstream_id) × ((f e).downstream_id ≡ e.downstream_id)

any-update :
    (p : Dependency → Bool) (f : Dependency → Dependency) (es : List Dependency) (x y : String)
    → Ends f
    → any (is_edge x y) (update_where p f es) ≡ any (is_edge x y) es
any-update p f [] x y h = refl
any-update p f (e ∷ es) x y h = ground (arith, h e, any-update p f es x y h)

Bounded-update :
    (p : Dependency → Bool) (f : Dependency → Dependency) (es : List Dependency)
    → ((e : Dependency) → Bounded e → Bounded (f e))
    → All Bounded es
    → All Bounded (update_where p f es)
Bounded-update p f [] h b = tt
Bounded-update p f (e ∷ es) h (b, bs) =
    (elim (Bool-cases (p e)) [ inl k ↦ rw k (h e b) | inr k ↦ rw k b ], Bounded-update p f es h bs)

Single-update :
    (p : Dependency → Bool) (f : Dependency → Dependency) (es : List Dependency)
    → Ends f
    → Single es
    → Single (update_where p f es)
Single-update p f [] h s = tt
Single-update p f (e ∷ es) h (s, ss) = (
  elim (Bool-cases (p e)) [
    | inl k ↦ rw (k, (h e).0, (h e).1) (any-update p f es e.upstream_id e.downstream_id h ∙ s)
    | inr k ↦ rw k (any-update p f es e.upstream_id e.downstream_id h ∙ s)
  ],
  Single-update p f es h ss,
)

pub Valid-update :
    (p : Dependency → Bool) (f : Dependency → Dependency) (es : List Dependency)
    → Ends f
    → ((e : Dependency) → Bounded e → Bounded (f e))
    → Valid es
    → Valid (update_where p f es)
Valid-update p f es h b v = record {
  acyclic =
      Acyclic-mono es (update_where p f es) (λ x y k. sym (any-update p f es x y h) ∙ k) v.acyclic;
  bounded = Bounded-update p f es b v.bounded;
  single = Single-update p f es h v.single;
}
