-- ===== src/Runs/Chatops/Bypass.antt =====
-- A signed link against the approval chain and the variable overrides of a run.
use crucible_iap.Base.{
  String, ◌≡◌, refl, ◌∙◌, Bool, true, false, ◌&&◌, none, some, List, [], ◌∷◌, ◌++◌, inl, inr, arith,
  Bool-cases, any, find?, update_where, find?-passes,
}
use mathlib.Core.Option
use crucible_iap.Db.{unconfirmed, pending_approval, Run, Stack, Job, apply, Db}
use crucible_iap.Db.Env.{Env, ok}
use crucible_iap.Db.Query.{find_run, find_stack, status_of, update_runs, find_run-update_runs}
use crucible_iap.Runs.Status.{is_pending_approval, is_unconfirmed}
use crucible_iap.Runs.Review.{is_run}
use crucible_iap.Runs.Chatops.{
  chat_action, confirm_run, approve_run, chatops_action, enqueue_confirmed, perform, decide,
}

module _ {C : Type 0} where
  found-any :
      (id : String) (p : Run C → Bool) (rs : List (Run C)) {r : Run C}
      → find? (is_run id) rs ≡ some r
      → p r ≡ true
      → any (λ x. is_run id x && p x) rs ≡ true
  found-any id p [] e h = absurd (ground arith)
  found-any id p (x ∷ xs) {r} e h = ground (arith, found-any id p xs {r = r})

  decided-status :
      (env : Env) (id : String) (rs : List (Run C)) {r : Run C}
      → find? (is_run id) rs ≡ some r
      → r.status ≡ pending_approval
      → Option.map
          (λ x. x.status)
          (find? (is_run id) (
            update_where
              (λ x. is_run id x && is_pending_approval x.status)
              (decide env approve_run)
              rs))
        ≡ some unconfirmed
  decided-status env id [] e h = absurd (ground arith)
  decided-status env id (x ∷ xs) {r} e h = elim (Bool-cases (is_run id x)) [
    | inl f ↦ ground arith
    | inr f ↦ ground (arith, decided-status env id xs {r = r} (ground arith) h)
  ]

  -- A valid link to approve a run that is pending approval makes it unconfirmed at once, whatever the
  -- approval chain of its stack, and records no approval of a step.
  pub chatops-approve_bypasses :
      (env : Env) (id : String) (db : Db C) (r : Run C)
      → find_run id db ≡ some r
      → r.status ≡ pending_approval
      → ((chatops_action env true id "approve" db).0 ≡ ok tt)
        × (status_of id (chatops_action env true id "approve" db).1 ≡ some unconfirmed)
        × ((chatops_action env true id "approve" db).1.chain_approvals ≡ db.chain_approvals)
  unfolding chatops_action perform chat_action
  chatops-approve_bypasses env id db r e h =
      rw (found-any id (λ x. is_pending_approval x.status) db.runs {r = r} e (ground arith))
        (refl, decided-status env id db.runs {r = r} e h, refl)

  abbrev bare_job : Env → String → Stack C → Job
  bare_job env id s = record {
    args = record {
      run_id = id;
      stack_id = s.id;
      source = s.source;
      run_type = apply;
      api_url = env.base_url;
      auto_apply = false;
      var_overrides = [];
    };
    scheduled_at = none;
  }

  enqueue_confirmed-jobs :
      (env : Env) (id : String) (db : Db C) (r : Run C) (s : Stack C)
      → find_run id db ≡ some r
      → find_stack r.stack_id db ≡ some s
      → s.worker_pool_id ≡ none
      → (enqueue_confirmed env id db).jobs ≡ db.jobs ++ bare_job env id s ∷ []
  enqueue_confirmed-jobs env id db r s e f g = rw (e, enqueue_confirmed) (rw (f, g) refl)

  confirmed-find :
      (env : Env) (id : String) (db : Db C) (r : Run C)
      → find_run id db ≡ some r
      → r.status ≡ unconfirmed
      → find_run id
          (update_runs (λ x. is_run id x && is_unconfirmed x.status) (decide env confirm_run) db)
        ≡ some (decide env confirm_run r)
  confirmed-find env id db r e h =
      find_run-update_runs id (λ x. is_run id x && is_unconfirmed x.status) (decide env confirm_run)
        db (λ x. refl)
      ∙ rw e (ground (arith, find?-passes (is_run id) db.runs {a = r} e))

  -- A valid link to confirm an unconfirmed run, whose stack no worker pool serves, adds one job, the
  -- apply of that run, without any variable override, whichever the run has.
  pub chatops-confirm_drops :
      (env : Env) (id : String) (db : Db C) (r : Run C) (s : Stack C)
      → find_run id db ≡ some r
      → r.status ≡ unconfirmed
      → find_stack r.stack_id db ≡ some s
      → s.worker_pool_id ≡ none
      → (j : Job) × ((chatops_action env true id "confirm" db).1.jobs ≡ db.jobs ++ j ∷ [])
        × (j.args.run_id ≡ id)
        × (j.args.run_type ≡ apply)
        × (j.args.var_overrides ≡ [])
  unfolding chatops_action perform chat_action
  chatops-confirm_drops env id db r s e h f g =
      rw (found-any id (λ x. is_unconfirmed x.status) db.runs {r = r} e (ground arith)) (
        bare_job env id s,
        enqueue_confirmed-jobs env id
            (update_runs (λ x. is_run id x && is_unconfirmed x.status) (decide env confirm_run) db)
            (decide env confirm_run r) s (confirmed-find env id db r e h) f g,
        refl,
        refl,
        refl,
      )
