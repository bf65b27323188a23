-- ===== src/Deps/Graph/Requests.antt =====
-- The table of edges under any sequence of the requests that change it.
use crucible_iap.Base.{
  ◌≤◌, String, ◌≡◌, refl, inl, inr, false, not, ◌&&◌, List, [], ◌∷◌, ◌++◌, arith, eq_iff, str_eq,
  Bool-cases, Option-cases, any, keep,
}
use crucible_iap.Base.Int.{ℤ, pos, negsuc, pos_part}
use crucible_iap.Db.{Dependency, Db}
use crucible_iap.Db.Env.{Env, Caller, Float64, Result}
use crucible_iap.Deps.Predicate.{Predicate, validate}
use crucible_iap.Deps.Graph.{
  is_edge, has_cycle, stack_exists, own_edge, update_edge, insert_edge, put_predicate, out_of,
  new_edge, add_downstream, set_predicate, set_retry, remove_downstream,
}
use crucible_iap.Deps.Graph.Acyclic.{Acyclic-snoc, Acyclic-mono, has_cycle-Reaches_iff}
use crucible_iap.Deps.Graph.Edges.{
  Bounded, Valid, Ends, Bounded-snoc, Single-snoc, any-keep, Bounded-keep, Single-keep,
  Valid-update,
}

-- the requests, with their callers and parameters
pub data GraphRequest : Type 0 where
  add : Caller → String → String → GraphRequest
  predicate : Caller → String → String → Predicate → GraphRequest
  retry : Caller → String → String → ℤ → ℤ → GraphRequest
  remove : Caller → String → String → GraphRequest

put_predicate-Ends : (p : Predicate) → Ends (put_predicate p)
put_predicate-Ends p e = (ground arith, ground arith)

put_predicate-Bounded : (p : Predicate) (e : Dependency) → Bounded e → Bounded (put_predicate p e)
put_predicate-Bounded p e b = ground arith

module _ {C : Type 0} (F : Float64 C) where
  unfoldable pub serve : Env → GraphRequest → Db C → Result (Unit {0}) × Db C
  serve env (add c up down) db = add_downstream env c up down db
  serve env (predicate c up down p) db = set_predicate F c up down p db
  serve env (retry c up down count backoff) db = set_retry c up down count backoff db
  serve env (remove c up down) db = remove_downstream c up down db

  -- any number of requests, whatever each one answers
  unfoldable pub serve_all : Env → List GraphRequest → Db C → Db C
  serve_all env [] db = db
  serve_all env (r ∷ rest) db = serve_all env rest (serve env r db).1

limits :
    (count backoff : ℤ)
    → out_of (pos 0) (pos 10) count ≡ false
    → out_of (pos 1) (pos 3600) backoff ≡ false
    → (pos_part count ≤ 10) × (1 ≤ pos_part backoff) × (pos_part backoff ≤ 3600)
limits (pos m) (pos n) h k = ground arith
limits (pos m) (negsuc n) h k = absurd (ground arith)
limits (negsuc m) n h k = absurd (ground arith)

module _ {C : Type 0} where
  Valid-snoc :
      (env : Env) (up down : String) (db : Db C)
      → str_eq up down ≡ false
      → has_cycle up down db.dependencies ≡ false
      → any (is_edge up down) db.dependencies ≡ false
      → Valid db.dependencies
      → Valid (db.dependencies ++ new_edge env up down db ∷ [])
  Valid-snoc env up down db ne free fresh v = record {
    acyclic =
        Acyclic-snoc db.dependencies (new_edge env up down db) (λ e. ground (arith, eq_iff up down))
          (λ r. ground (arith, (has_cycle-Reaches_iff up down db.dependencies).1 r)) v.acyclic;
    bounded = Bounded-snoc db.dependencies (new_edge env up down db) v.bounded (omega arith);
    single = Single-snoc db.dependencies (new_edge env up down db) v.single fresh;
  }

  add-Valid :
      (env : Env) (c : Caller) (up down : String) (db : Db C)
      → Valid db.dependencies
      → Valid (add_downstream env c up down db).1.dependencies
  unfolding add_downstream insert_edge
  add-Valid env c up down db v = elim (Bool-cases (str_eq up down)) [
    | inl e ↦ rw (e, add_downstream) v
    | inr e ↦ elim (Bool-cases (stack_exists up c.org_id db && stack_exists down c.org_id db)) [
      | inr f ↦ rw (e, add_downstream) (rw f v)
      | inl f ↦ elim (Bool-cases (has_cycle up down db.dependencies)) [
        | inl g ↦ rw (e, add_downstream) (rw (f, g) v)
        | inr g ↦ elim (Bool-cases (any (is_edge up down) db.dependencies)) [
          | inl h ↦ rw (e, add_downstream) (rw (f, g) (rw (h, insert_edge) v))
          | inr h ↦
              rw (e, add_downstream)
                (rw (f, g) (rw (h, insert_edge) (Valid-snoc env up down db e g h v)))
        ]
      ]
    ]
  ]

  update_edge-Valid :
      (c : Caller) (action up down : String) (f : Dependency → Dependency) (db : Db C)
      → Ends f
      → ((e : Dependency) → Bounded e → Bounded (f e))
      → Valid db.dependencies
      → Valid (update_edge c action up down f db).1.dependencies
  unfolding update_edge
  update_edge-Valid c action up down f db ends b v =
      elim (Bool-cases (any (own_edge c up down db) db.dependencies)) [
        | inl e ↦
            rw (e, update_edge) (Valid-update (own_edge c up down db) f db.dependencies ends b v)
        | inr e ↦ rw (e, update_edge) v
      ]

  remove-Valid :
      (c : Caller) (up down : String) (db : Db C)
      → Valid db.dependencies
      → Valid (remove_downstream c up down db).1.dependencies
  unfolding remove_downstream
  remove-Valid c up down db v =
      let kept = λ (e : Dependency). not (own_edge c up down db e) in
      elim (Bool-cases (any (own_edge c up down db) db.dependencies)) [
        | inr e ↦ rw (e, remove_downstream) v
        | inl e ↦
            rw (e, remove_downstream)
              (record {
                acyclic =
                    Acyclic-mono db.dependencies (keep kept db.dependencies)
                      (λ x y k. any-keep kept (is_edge x y) db.dependencies k) v.acyclic;
                bounded = Bounded-keep kept db.dependencies v.bounded;
                single = Single-keep kept db.dependencies v.single;
              })
      ]

  retry-Valid :
      (c : Caller) (up down : String) (count backoff : ℤ) (db : Db C)
      → Valid db.dependencies
      → Valid (set_retry c up down count backoff db).1.dependencies
  unfolding set_retry
  retry-Valid c up down count backoff db v = elim (Bool-cases (out_of (pos 0) (pos 10) count)) [
    | inl e ↦ rw (e, set_retry) v
    | inr e ↦ elim (Bool-cases (out_of (pos 1) (pos 3600) backoff)) [
      | inl f ↦ rw (e, set_retry) (rw f v)
      | inr f ↦
          rw (e, set_retry)
            (rw f (
              update_edge-Valid c "stack.dependency.retry_set" up down
                (λ x. record x {
                  retry_count = pos_part count;
                  retry_backoff_seconds = pos_part backoff;
                })
                db (λ x. (refl, refl)) (λ x b. limits count backoff e f) v))
    ]
  ]

module _ {C : Type 0} (F : Float64 C) where
  serve-Valid :
      (env : Env) (r : GraphRequest) (db : Db C)
      → Valid db.dependencies
      → Valid (serve F env r db).1.dependencies
  unfolding serve set_predicate
  serve-Valid env (GraphRequest.add c up down) db v = add-Valid env c up down db v
  serve-Valid env (GraphRequest.remove c up down) db v = remove-Valid c up down db v
  serve-Valid env (GraphRequest.retry c up down count backoff) db v =
      retry-Valid c up down count backoff db v
  serve-Valid env (GraphRequest.predicate c up down p) db v = elim (Option-cases (validate F p)) [
    | inr (bad, e) ↦ rw (e, set_predicate) v
    | inl e ↦
        rw (e, set_predicate)
          (update_edge-Valid c "stack.dependency.predicate_set" up down (put_predicate p) db
            (put_predicate-Ends p) (put_predicate-Bounded p) v)
  ]

  -- Through any sequence of requests, refused ones among them, the graph of the edges stays acyclic,
  -- every retry policy stays within 0 to 10 retries and 1 to 3600 seconds, and no two edges join the
  -- same two stacks.
  pub serve_all-Valid :
      (env : Env) (rs : List GraphRequest) (db : Db C)
      → Valid db.dependencies
      → Valid (serve_all F env rs db).dependencies
  unfolding serve_all
  serve_all-Valid env [] db v = v
  serve_all-Valid env (r ∷ rs) db v =
      serve_all-Valid env rs (serve F env r db).1 (serve-Valid env r db v)
