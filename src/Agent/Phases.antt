-- ===== src/Agent/Phases.antt =====
-- Which run an agent receives, for which phase, and which run it can finish.
use crucible_iap.Base.{
  ℕ, ◌≤◌, String, ◌≡◌, ◌≢◌, refl, Bool, true, false, Option, none, some, List, [], ◌∷◌, inl, inr,
  arith, eq_iff, Bool-cases, Option-cases, All, any, find?, update_where, if◌then◌else◌,
}
use crucible_iap.Db.{RunStatus, planning, applying, Run, apply, Db}
use crucible_iap.Db.Env.{Env, ok, http_error, Float64}
use crucible_iap.Db.Query.{find_stack}
use crucible_iap.Policy.{Policy}
use crucible_iap.Runs.PlanPolicies.{PlanInput}
use crucible_iap.Runs.Status.{is_terminal, is_preparing}
use crucible_iap.Runs.Review.{is_run}
use crucible_iap.Runs.Internal.{report_status, report, reportable, reports}
use crucible_iap.Agent.{JobSpec, is_waiting, oldest_waiting, claim, finish, is_finishing}

terminal-not_preparing : (s : RunStatus) → is_terminal s ≡ true → is_preparing s ≡ false
terminal-not_preparing s h = ground arith

module _ {C : Type 0} where
  -- the run that the inner SELECT takes
  abbrev Oldest : String → List (Run C) → Run C → Type 0
  Oldest pool rs r =
      (is_waiting pool r ≡ true)
      × All (λ x. is_waiting pool x ≡ true → r.queued_at ≤ x.queued_at) rs

  oldest_waiting-none :
      (pool : String) (rs : List (Run C))
      → oldest_waiting pool rs ≡ none
      → any (is_waiting pool) rs ≡ false
  unfolding oldest_waiting
  oldest_waiting-none pool [] e = refl
  oldest_waiting-none pool (x ∷ xs) e = ground (arith, oldest_waiting-none pool xs)

  none-All :
      (pool : String) (n : ℕ) (rs : List (Run C))
      → any (is_waiting pool) rs ≡ false
      → All (λ x. is_waiting pool x ≡ true → n ≤ x.queued_at) rs
  none-All pool n [] e = tt
  none-All pool n (x ∷ xs) e = (λ h. absurd (ground arith), none-All pool n xs (ground arith))

  All-le :
      (pool : String) (m n : ℕ) (rs : List (Run C))
      → m ≤ n
      → All (λ x. is_waiting pool x ≡ true → n ≤ x.queued_at) rs
      → All (λ x. is_waiting pool x ≡ true → m ≤ x.queued_at) rs
  All-le pool m n [] h a = tt
  All-le pool m n (x ∷ xs) h (a, rest) = (λ w. omega (arith, a w, h), All-le pool m n xs h rest)

  oldest_waiting-Oldest :
      (pool : String) (rs : List (Run C)) {r : Run C}
      → oldest_waiting pool rs ≡ some r
      → Oldest pool rs r
  unfolding oldest_waiting
  oldest_waiting-Oldest pool [] e = absurd (ground arith)
  oldest_waiting-Oldest pool (x ∷ xs) {r} e = elim (Bool-cases (is_waiting pool x)) [
    | inr w ↦
        let (q, qs) = oldest_waiting-Oldest pool xs {r = r} (ground arith) in
        (q, (λ v. absurd (ground arith), qs))
    | inl w ↦ elim (Option-cases (oldest_waiting pool xs)) [
      | inl f ↦ (
        ground arith,
        (λ v. ground arith, none-All pool r.queued_at xs (oldest_waiting-none pool xs f)),
      )
      | inr (b, f) ↦
          let (q, qs) = oldest_waiting-Oldest pool xs {r = b} f in
          (
            ground arith,
            (λ v. ground arith, All-le pool r.queued_at b.queued_at xs (ground arith) qs),
          )
    ]
  ]

  -- The job that a claim returns is that of a waiting run of the agent's pool, and no waiting run of
  -- that pool has been queued for longer.
  pub claim-oldest :
      (env : Env) (pool : String) (db : Db C) {spec : JobSpec}
      → (claim env pool db).0 ≡ ok (some spec)
      → (r : Run C) × (spec.run_id ≡ r.id)
        × (is_waiting pool r ≡ true)
        × All (λ x. is_waiting pool x ≡ true → r.queued_at ≤ x.queued_at) db.runs
  unfolding claim
  claim-oldest env pool db {spec} e = elim (Option-cases (oldest_waiting pool db.runs)) [
    | inl f ↦ absurd (ground arith)
    | inr (r, f) ↦
        let (w, m) = oldest_waiting-Oldest pool db.runs {r = r} f in
        elim (Option-cases (find_stack r.stack_id db)) [
          | inl g ↦ absurd (ground arith)
          | inr (s, g) ↦ (r, ground arith, w, m)
        ]
  ]

  -- No claim ever returns a job of the apply phase, not even for a run that was confirmed: the status
  -- that decides it is read after the update has set it to preparing.
  pub claim-never_apply :
      (env : Env) (pool : String) (db : Db C) {spec : JobSpec}
      → (claim env pool db).0 ≡ ok (some spec)
      → spec.run_type ≢ apply
  unfolding claim
  claim-never_apply env pool db {spec} e a = elim (Option-cases (oldest_waiting pool db.runs)) [
    | inl f ↦ ground arith
    | inr (r, f) ↦ elim (Option-cases (find_stack r.stack_id db)) [
      | inl g ↦ ground arith
      | inr (s, g) ↦ ground arith
    ]
  ]

  reported-row :
      (pool id : String) (s : RunStatus) (x : Run C)
      → is_preparing s ≡ false
      → is_finishing pool id (if reports id x then record x { status = s } else x) ≡ false
  reported-row pool id s x h = elim (Bool-cases (is_run id x)) [
    | inr e ↦ ground arith
    | inl e ↦ elim (Bool-cases (is_terminal x.status)) [
      | inr f ↦ ground arith
      | inl f ↦ ground (arith, terminal-not_preparing x.status f)
    ]
  ]

  -- after the update of a report no row of the run is left in the status preparing
  reported-no_finishing :
      (pool id : String) (s : RunStatus) (rs : List (Run C))
      → is_preparing s ≡ false
      → find? (is_finishing pool id) (update_where (reports id) (λ x. record x { status = s }) rs)
        ≡ none
  reported-no_finishing pool id s [] h = refl
  reported-no_finishing pool id s (x ∷ xs) h =
      rw (reported-row pool id s x h) (reported-no_finishing pool id s xs h)

  -- Once a runner container has reported planning or applying, the agent that runs it can no longer
  -- finish the run: every such request is answered with 404, whatever the outcome.
  pub finish-reported :
      ⦃F : Float64 C⦄ (engine : Option (List (Policy (PlanInput C)))) (env : Env)
      (pool id name : String) (success : Bool) (db : Db C)
      → (report_status id id name db).0 ≡ ok tt
      → (finish engine env pool id success (report_status id id name db).1).0 ≡ http_error 404
  unfolding finish report_status report reportable
  finish-reported ⦃F⦄ engine env pool id name success db h = ground (
    arith,
    eq_iff id id,
    reported-no_finishing pool id planning db.runs refl,
    reported-no_finishing pool id applying db.runs refl,
  )
