-- ===== src/Runs/Review/Effects.antt =====
-- What the decisions of handler.go require and what they bring about.
use crucible_iap.Base.{
  ℕ, ◌<◌, String, ◌≡◌, refl, sym, subst, ◌↔◌, true, false, ◌&&◌, Option, none, some, List, [], ◌∷◌,
  ◌++◌, inl, inr, arith, ltb, Bool-cases, Option-cases, length, find?, any, any-find?,
  find?-none-any,
}
use crucible_iap.Db.{unconfirmed, pending_approval, Run, Stack, ChainStep, Job, apply, Db}
use crucible_iap.Db.Env.{Env, Caller, ok}
use crucible_iap.Db.Query.{find_run, find_stack, status_of}
use crucible_iap.Access.{may_act_on_run}
use crucible_iap.Runs.Status.{is_unconfirmed, is_pending_approval}
use crucible_iap.Runs.Chain.{
  is_approved, next_pending_step, record_chain_approval, ChainResult, next_step, no_chain,
  not_eligible,
}
use crucible_iap.Runs.Chain.Progress.{next_pending_step-least, record-runs, record-next}
use crucible_iap.Runs.Review.{
  is_run, is_service, confirm, confirm_found, approve_with_chain, approve_step_done,
}

module _ {C : Type 0} where
  -- the row that the statement of `Confirm` takes
  abbrev confirmable : String → Db C → Option (Run C)
  confirmable id db = find? (λ x. is_run id x && is_unconfirmed x.status) db.runs

  -- A confirmation succeeds exactly for a user, no service account, who may act on the run, while a
  -- row of that run is in the status unconfirmed.
  pub confirm-ok_iff :
      (env : Env) (c : Caller) (id : String) (db : Db C)
      → ((confirm env c id db).0 ≡ ok tt) ↔ (
          (may_act_on_run c id db ≡ true)
          × (is_service c ≡ false)
          × (any (λ x. is_run id x && is_unconfirmed x.status) db.runs ≡ true))
  unfolding confirm confirm_found
  confirm-ok_iff env c id db = elim (Option-cases (confirmable id db)) [
    | inl e ↦ ground (arith, find?-none-any (λ x. is_run id x && is_unconfirmed x.status) db.runs e)
    | inr (r, e) ↦
        ground (arith, any-find? (λ x. is_run id x && is_unconfirmed x.status) db.runs {r = r} e)
  ]

  -- the apply job of a run
  abbrev apply_job : Env → Run C → Stack C → Job
  apply_job env r s = record {
    args = record {
      run_id = r.id;
      stack_id = r.stack_id;
      source = s.source;
      run_type = apply;
      api_url = env.api_url;
      auto_apply = false;
      var_overrides = r.var_overrides;
    };
    scheduled_at = none;
  }

  -- A confirmation that succeeds adds one job to the queue, the apply of that run with the variable
  -- overrides of its row, if no worker pool serves the stack, and no job otherwise.
  pub confirm-jobs :
      (env : Env) (c : Caller) (id : String) (db : Db C) (r : Run C) (s : Stack C)
      → may_act_on_run c id db ≡ true
      → is_service c ≡ false
      → find? (λ x. is_run id x && is_unconfirmed x.status) db.runs ≡ some r
      → find_stack r.stack_id db ≡ some s
      → (confirm env c id db).1.jobs
        ≡ (elim s.worker_pool_id [ some pool ↦ db.jobs | none ↦ db.jobs ++ apply_job env r s ∷ [] ])
  unfolding confirm confirm_found
  confirm-jobs env c id db r s m v e f = elim (Option-cases s.worker_pool_id) [
    | inl g ↦ ground arith
    | inr (p, g) ↦ ground arith
  ]

  -- after a step that leaves the run unconfirmed
  step_done_complete :
      (env : Env) (c : Caller) (id : String) (links : List ChainStep) (o : ChainResult × Db C)
      → status_of id o.1 ≡ some pending_approval
      → ((n : ℕ) → o.0 ≡ next_step n → n ≡ next_pending_step id (length links) o.1)
      → status_of id (approve_step_done env c id links o).1 ≡ some unconfirmed
      → (j : ℕ) → j < length links
      → is_approved id j (approve_step_done env c id links o).1 ≡ true
  unfolding approve_step_done
  step_done_complete env c id links (no_chain, db) h n k j l = absurd (ground arith)
  step_done_complete env c id links (not_eligible i, db) h n k j l = absurd (ground arith)
  step_done_complete env c id links (next_step i, db) h n k j l =
      let (b, before, pending) = next_pending_step-least id (length links) db in
      elim (Bool-cases (ltb i (length links))) [
        | inl e ↦ absurd (ground arith)
        | inr e ↦ ground (arith, before j (ground (arith, n i refl)))
      ]

  with_chain-step :
      (env : Env) (c : Caller) (id : String) (links : List ChainStep) (db : Db C) (r : Run C)
      → find_run id db ≡ some r
      → is_pending_approval r.status ≡ true
      → is_service c ≡ false
      → approve_with_chain env c id links db
        ≡ approve_step_done env c id links (record_chain_approval id c.user_id links db)
  unfolding approve_with_chain
  with_chain-step env c id links db r e f v = rw (e, approve_with_chain) (rw f (rw v refl))

  -- a service account's request changes no table
  pub with_chain-service :
      (env : Env) (c : Caller) (id : String) (links : List ChainStep) (db : Db C)
      → is_service c ≡ true
      → (approve_with_chain env c id links db).1 ≡ db
  unfolding approve_with_chain
  with_chain-service env c id links db v = elim (Option-cases (find_run id db)) [
    | inl e ↦ rw (e, approve_with_chain) refl
    | inr (r, e) ↦ elim (Bool-cases (is_pending_approval r.status)) [
      | inr f ↦ rw (e, approve_with_chain) (rw f refl)
      | inl f ↦ rw (e, approve_with_chain) (rw f (rw v refl))
    ]
  ]

  -- The approval of a step of a chain turns a run that is pending approval unconfirmed only when every
  -- step of the chain has been approved.
  pub with_chain_complete :
      (env : Env) (c : Caller) (id : String) (links : List ChainStep) (db : Db C)
      → status_of id db ≡ some pending_approval
      → status_of id (approve_with_chain env c id links db).1 ≡ some unconfirmed
      → (j : ℕ) → j < length links
      → is_approved id j (approve_with_chain env c id links db).1 ≡ true
  unfolding approve_with_chain
  with_chain_complete env c id links db h k j l = elim (Option-cases (find_run id db)) [
    | inl e ↦ absurd (ground arith)
    | inr (r, e) ↦ elim (Bool-cases (is_pending_approval r.status)) [
      | inr f ↦ absurd (ground arith)
      | inl f ↦ elim (Bool-cases (is_service c)) [
        | inl v ↦ absurd (ground (arith, with_chain-service env c id links db v))
        | inr v ↦
            let o = record_chain_approval id c.user_id links db in
            subst (λ q. is_approved id j q.1 ≡ true)
              (sym (with_chain-step env c id links db r e f v))
              (step_done_complete env c id links o (rw (record-runs id c.user_id links db) h)
                (record-next id c.user_id links db)
                (subst (λ q. status_of id q.1 ≡ some unconfirmed)
                  (with_chain-step env c id links db r e f v) k)
                j l)
      ]
    ]
  ]
