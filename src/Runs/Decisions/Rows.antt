-- ===== src/Runs/Decisions/Rows.antt =====
-- Rows of the runs table before and after a statement, by the edges of the diagram.
use crucible_iap.Base.{
  String, ◌≡◌, refl, sym, Bool, true, false, ◌&&◌, List, [], ◌∷◌, inl, inr, arith, eq_iff,
  update_where, All₂, Bool-cases, ◌⊎◌, any, update_where_none,
}
use crucible_iap.Db.{confirmed, Run, Db}
use crucible_iap.Db.Env.{Env}
use crucible_iap.Runs.Status.{is_pending_approval}
use crucible_iap.Runs.Review.{is_run, set_approved, enqueue_apply}
use crucible_iap.Runs.Decisions.{edge}

module _ {C : Type 0} where
  -- the same run, moved along the diagram
  abbrev pub Moves : Run C → Run C → Type 0
  Moves r r' = (r'.id ≡ r.id) × (edge r.status r'.status ≡ true)

  pub Moves-refl : (r : Run C) → Moves r r
  Moves-refl r = ground arith

  pub All₂-refl : (rs : List (Run C)) → All₂ Moves rs rs
  All₂-refl [] = tt
  All₂-refl (r ∷ rs) = (Moves-refl r, All₂-refl rs)

  -- an update that moves each row that it takes
  pub All₂-update :
      (p : Run C → Bool) (f : Run C → Run C) (rs : List (Run C))
      → ((r : Run C) → p r ≡ true → Moves r (f r))
      → All₂ Moves rs (update_where p f rs)
  All₂-update p f [] h = tt
  All₂-update p f (r ∷ rs) h = (
    elim (Bool-cases (p r)) [ inl e ↦ rw e (h r e) | inr e ↦ rw e (Moves-refl r) ],
    All₂-update p f rs h,
  )

  -- the two shapes of a handler's runs: untouched, or one update
  unfoldable pub Updated : (Run C → Bool) → (Run C → Run C) → Db C → Db C → Type 0
  Updated p f db db' = (db'.runs ≡ db.runs) ⊎ (db'.runs ≡ update_where p f db.runs)

  pub enqueue_apply-runs :
      (url sid : String) (r : Run C) (db : Db C) → (enqueue_apply url sid r db).runs ≡ db.runs
  enqueue_apply-runs url sid r db = ground arith

  pub Moves-of_Updated :
      (p : Run C → Bool) (f : Run C → Run C) (db db' : Db C)
      → ((r : Run C) → p r ≡ true → Moves r (f r))
      → Updated p f db db'
      → All₂ Moves db.runs db'.runs
  unfolding Updated
  Moves-of_Updated p f db db' h (inl e) = rw e (All₂-refl db.runs)
  Moves-of_Updated p f db db' h (inr e) = rw e (All₂-update p f db.runs h)

  -- no two rows have one id
  abbrev pub Keys : List (Run C) → Type 0
  Keys [] = Unit
  Keys (r ∷ rs) = (any (is_run r.id) rs ≡ false) × Keys rs

  pub any-update_none :
      (k : String) (p : Run C → Bool) (rs : List (Run C))
      → any (is_run k) rs ≡ false
      → any (λ x. is_run k x && p x) rs ≡ false
  any-update_none k p [] h = refl
  any-update_none k p (r ∷ rs) h = ground (arith, any-update_none k p rs)

  pub same_key_none :
      (k : String) (r : Run C) (rs : List (Run C))
      → is_run k r ≡ true
      → any (is_run r.id) rs ≡ false
      → any (is_run k) rs ≡ false
  same_key_none k r rs f h = rw (sym ((eq_iff r.id k).0 f)) h

  unfoldable pub set_twice : String → String → Env → List (Run C) → List (Run C)
  set_twice k user env rs =
      update_where (is_run k) (λ x. record x { status = confirmed })
        (update_where (λ x. is_run k x && is_pending_approval x.status) (set_approved env user) rs)

  pub set_twice_none :
      (k user : String) (env : Env) (rs : List (Run C))
      → any (is_run k) rs ≡ false
      → set_twice k user env rs ≡ rs
  unfolding set_twice
  set_twice_none k user env rs h =
      rw
        (update_where_none (λ x. is_run k x && is_pending_approval x.status) (set_approved env user)
          rs (any-update_none k (λ x. is_pending_approval x.status) rs h))
        (update_where_none (is_run k) (λ x. record x { status = confirmed }) rs h)

  -- The two statements of an auto-apply approval: they take one row.
  pub set_twice-Moves :
      (k user : String) (env : Env) (rs : List (Run C))
      → Keys rs
      → any (λ x. is_run k x && is_pending_approval x.status) rs ≡ true
      → All₂ Moves rs (set_twice k user env rs)
  unfolding set_twice
  set_twice-Moves k user env [] h e = tt
  set_twice-Moves k user env (r ∷ rs) (h, hs) e = elim (Bool-cases (is_run k r)) [
    | inl f ↦ (
      (
        ground arith,
        ground (
          arith,
          any-update_none k (λ x. is_pending_approval x.status) rs (same_key_none k r rs f h),
        ),
      ),
      rw (set_twice_none k user env rs (same_key_none k r rs f h)) (All₂-refl rs),
    )
    | inr f ↦ ((ground arith, ground arith), set_twice-Moves k user env rs hs (ground arith))
  ]
