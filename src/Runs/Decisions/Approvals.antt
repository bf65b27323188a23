-- ===== src/Runs/Decisions/Approvals.antt =====
-- The approval of a run, with a chain and without one, row by row.
use crucible_iap.Base.{
  String, ◌≡◌, refl, subst, true, false, ◌&&◌, some, List, [], ◌∷◌, inl, inr, arith, update_where,
  All₂, Bool-cases, Option-cases, find?, any-find?, ltb, length,
}
use crucible_iap.Db.{Run, ChainStep, Db}
use crucible_iap.Db.Env.{Env, Caller}
use crucible_iap.Db.Query.{find_run}
use crucible_iap.Access.{may_act_on_run}
use crucible_iap.Runs.Status.{is_pending_approval}
use crucible_iap.Runs.Chain.{
  record_chain_approval, load_stack_chain, LoadedChain, chain, decode_error, ChainResult, next_step,
  no_chain, not_eligible,
}
use crucible_iap.Runs.Chain.Progress.{record-runs}
use crucible_iap.Runs.Review
use crucible_iap.Runs.Review.{
  is_run, is_service, auto_applies, set_confirmed, set_approved, enqueue_apply, approve_step_done,
  approve_by, approve_found, approve_with_chain,
}
use crucible_iap.Runs.Decisions.Rows.{
  Moves, All₂-refl, All₂-update, Updated, Moves-of_Updated, Keys, set_twice, set_twice-Moves,
}

module _ {C : Type 0} where
  pub approve_found-runs_twice :
      (env : Env) (c : Caller) (id : String) (r : Run C) (db : Db C)
      → auto_applies r db ≡ true
      → (approve_found env c id (some r) db).1.runs ≡ set_twice id c.user_id env db.runs
  unfolding approve_found set_twice
  approve_found-runs_twice env c id r db a = ground arith

  pub approve_found-runs_once :
      (env : Env) (c : Caller) (id : String) (r : Run C) (db : Db C)
      → auto_applies r db ≡ false
      → (approve_found env c id (some r) db).1.runs
        ≡ update_where
            (λ x. is_run id x && is_pending_approval x.status)
            (set_approved env c.user_id)
            db.runs
  unfolding approve_found
  approve_found-runs_once env c id r db a = ground arith

  pub set_approved-Moves :
      (env : Env) (user id : String) (r : Run C)
      → (is_run id r && is_pending_approval r.status) ≡ true
      → Moves r (set_approved env user r)
  set_approved-Moves env user id r h = (ground arith, ground arith)

  pub approve_found-Moves :
      (env : Env) (c : Caller) (id : String) (db : Db C)
      → Keys db.runs
      → All₂ Moves db.runs
          (approve_found env c id
            (find? (λ x. is_run id x && is_pending_approval x.status) db.runs)
            db).1.runs
  unfolding approve_found
  approve_found-Moves env c id db h =
      elim (Option-cases (find? (λ x. is_run id x && is_pending_approval x.status) db.runs)) [
        | inl e ↦ rw e (All₂-refl db.runs)
        | inr (r, e) ↦ elim (Bool-cases (auto_applies r db)) [
          | inl a ↦ rw e (
              rw (approve_found-runs_twice env c id r db a) (
                set_twice-Moves id c.user_id env db.runs h
                  (any-find? (λ x. is_run id x && is_pending_approval x.status) db.runs e)))
          | inr a ↦ rw e (
              rw (approve_found-runs_once env c id r db a) (
                All₂-update (λ x. is_run id x && is_pending_approval x.status)
                  (set_approved env c.user_id) db.runs
                  (λ x k. set_approved-Moves env c.user_id id x k)))
        ]
      ]

  pub step_done-Updated :
      (env : Env) (c : Caller) (id : String) (steps : List ChainStep) (res : ChainResult)
      (db : Db C)
      → Updated
          (λ x. is_run id x && is_pending_approval x.status)
          (set_approved env c.user_id)
          db
          (approve_step_done env c id steps (res, db)).1
  unfolding Updated approve_step_done
  step_done-Updated env c id steps no_chain db = inl refl
  step_done-Updated env c id steps (not_eligible i) db = inl refl
  step_done-Updated env c id steps (next_step n) db = elim (Bool-cases (ltb n (length steps))) [
    | inl e ↦ inl (ground arith)
    | inr e ↦ inr (ground arith)
  ]

  pub step_done-Moves :
      (env : Env) (c : Caller) (id : String) (steps : List ChainStep) (o : ChainResult × Db C)
      → All₂ Moves o.1.runs (approve_step_done env c id steps o).1.runs
  step_done-Moves env c id steps (res, db) =
      Moves-of_Updated (λ x. is_run id x && is_pending_approval x.status)
        (set_approved env c.user_id) db (approve_step_done env c id steps (res, db)).1
        (λ x k. set_approved-Moves env c.user_id id x k) (step_done-Updated env c id steps res db)

  pub with_chain-Moves :
      (env : Env) (c : Caller) (id : String) (steps : List ChainStep) (db : Db C)
      → All₂ Moves db.runs (approve_with_chain env c id steps db).1.runs
  unfolding approve_with_chain
  with_chain-Moves env c id steps db = elim (Option-cases (find_run id db)) [
    | inl e ↦ rw (e, approve_with_chain) (All₂-refl db.runs)
    | inr (r, e) ↦ elim (Bool-cases (is_pending_approval r.status)) [
      | inr k ↦ rw (e, approve_with_chain) (rw k (All₂-refl db.runs))
      | inl k ↦ elim (Bool-cases (is_service c)) [
        | inl v ↦ rw (e, approve_with_chain) (rw k (rw v (All₂-refl db.runs)))
        | inr v ↦
            rw (e, approve_with_chain)
              (rw k (
                rw v (
                  subst
                    (λ rs.
                      All₂ Moves rs
                        (approve_step_done env c id steps
                          (record_chain_approval id c.user_id steps db)).1.runs)
                    (record-runs id c.user_id steps db)
                    (step_done-Moves env c id steps
                      (record_chain_approval id c.user_id steps db)))))
      ]
    ]
  ]

  pub approve_by-Moves :
      (env : Env) (c : Caller) (id : String) (l : LoadedChain) (db : Db C)
      → Keys db.runs
      → All₂ Moves db.runs (approve_by env c id l db).1.runs
  unfolding approve_by
  approve_by-Moves env c id decode_error db h = All₂-refl db.runs
  approve_by-Moves env c id (chain []) db h = elim (Bool-cases (is_service c)) [
    | inl v ↦ rw (v, approve_by) (All₂-refl db.runs)
    | inr v ↦ rw (v, approve_by) (approve_found-Moves env c id db h)
  ]
  approve_by-Moves env c id (chain (s ∷ rest)) db h = with_chain-Moves env c id (s ∷ rest) db

  pub approve-Moves :
      (env : Env) (c : Caller) (id : String) (db : Db C)
      → Keys db.runs
      → All₂ Moves db.runs (Review.approve env c id db).1.runs
  unfolding Review.approve
  approve-Moves env c id db h = elim (Bool-cases (may_act_on_run c id db)) [
    | inr m ↦ rw (m, Review.approve) (All₂-refl db.runs)
    | inl m ↦ elim (Option-cases (find_run id db)) [
      | inl e ↦ rw (m, Review.approve) (rw e (All₂-refl db.runs))
      | inr (r, e) ↦
          rw (m, Review.approve)
            (rw e (approve_by-Moves env c id (load_stack_chain r.stack_id db) db h))
    ]
  ]
