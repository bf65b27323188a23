-- ===== src/Runs/Decisions/Refusals.antt =====
-- The tables after a request that is refused.
use crucible_iap.Base.{
  Bool, String, ◌≡◌, refl, inl, inr, arith, Bool-cases, Option-cases, find?, List, [], ◌∷◌, ◌&&◌,
  any, str_eq, ℕ, ltb, length,
}
use crucible_iap.Db.{ChainStep, Db}
use crucible_iap.Db.Env.{Env, Caller, Result, ok, http_error}
use crucible_iap.Db.Query.{find_run}
use crucible_iap.Access.{may_act_on_run}
use crucible_iap.Runs.Status.{is_unconfirmed, is_pending_approval, is_active}
use crucible_iap.Runs.Chain.{
  record_chain_approval, load_stack_chain, LoadedChain, chain, decode_error, ChainResult, next_step,
  no_chain, not_eligible,
}
use crucible_iap.Runs.Review
use crucible_iap.Runs.Review.{
  is_run, is_service, service_answer, confirm_found, approve_found, approve_step_done, approve_by,
  approve_with_chain,
}
use crucible_iap.Runs.Control
use crucible_iap.Runs.Chatops.{chatops_action, perform, chat_action, allows}
use crucible_iap.Runs.Internal.{report, report_status, reportable, reports}
use crucible_iap.Runs.Decisions.{Decision, handle}

module _ {C : Type 0} where
  -- an answer, and the tables it leaves, from these tables
  unfoldable Kept : Db C → Result (Unit {0}) × Db C → Type 0
  Kept db (ok u, db') = Unit
  Kept db (http_error n, db') = db' ≡ db

  confirm-Kept :
      (env : Env) (c : Caller) (id : String) (db : Db C) → Kept db (Review.confirm env c id db)
  unfolding Kept Review.confirm confirm_found
  confirm-Kept env c id db = elim (Bool-cases (may_act_on_run c id db)) [
    | inr e ↦ rw (e, Review.confirm) refl
    | inl e ↦ elim (Bool-cases (is_service c)) [
      | inl v ↦ rw (e, Review.confirm) (rw v refl)
      | inr v ↦ elim (Option-cases (find? (λ x. is_run id x && is_unconfirmed x.status) db.runs)) [
        | inl f ↦ rw (e, Review.confirm) (rw v (rw f refl))
        | inr (r, f) ↦ rw (e, Review.confirm) (rw v (rw f tt))
      ]
    ]
  ]

  discard-Kept :
      (env : Env) (c : Caller) (id : String) (db : Db C) → Kept db (Control.discard env c id db)
  unfolding Kept Control.discard
  discard-Kept env c id db = elim (Bool-cases (may_act_on_run c id db)) [
    | inr e ↦ rw (e, Control.discard) refl
    | inl e ↦ elim (Bool-cases (any (λ x. is_run id x && is_unconfirmed x.status) db.runs)) [
      | inr f ↦ rw (e, Control.discard) (rw f refl)
      | inl f ↦ rw (e, Control.discard) (rw f tt)
    ]
  ]

  cancel-Kept :
      (env : Env) (c : Caller) (id : String) (db : Db C) → Kept db (Control.cancel env c id db)
  unfolding Kept Control.cancel
  cancel-Kept env c id db = elim (Bool-cases (may_act_on_run c id db)) [
    | inr e ↦ rw (e, Control.cancel) refl
    | inl e ↦ elim (Bool-cases (any (λ x. is_run id x && is_active x.status) db.runs)) [
      | inr f ↦ rw (e, Control.cancel) (rw f refl)
      | inl f ↦ rw (e, Control.cancel) (rw f tt)
    ]
  ]

  chatops-Kept :
      (env : Env) (valid : Bool) (id name : String) (db : Db C)
      → Kept db (chatops_action env valid id name db)
  unfolding Kept chatops_action perform
  chatops-Kept env valid id name db = elim (Option-cases (chat_action name)) [
    | inl e ↦ rw (e, chatops_action) refl
    | inr (a, e) ↦ elim (Bool-cases valid) [
      | inr v ↦ rw (e, chatops_action) (rw v refl)
      | inl v ↦ elim (Bool-cases (any (λ x. is_run id x && allows a x) db.runs)) [
        | inr f ↦ rw (e, chatops_action) (rw v (rw f refl))
        | inl f ↦ rw (e, chatops_action) (rw v (rw f tt))
      ]
    ]
  ]

  report_status-Kept :
      (token id name : String) (db : Db C) → Kept db (report_status token id name db)
  unfolding Kept report_status report
  report_status-Kept token id name db = elim (Bool-cases (str_eq token id)) [
    | inr e ↦ rw (e, report_status) refl
    | inl v ↦ elim (Option-cases (reportable name)) [
      | inl e ↦ rw (v, report_status) (rw e refl)
      | inr (st, e) ↦ elim (Bool-cases (any (reports id) db.runs)) [
        | inr f ↦ rw (v, report_status) (rw e (rw f refl))
        | inl f ↦ rw (v, report_status) (rw e (rw f tt))
      ]
    ]
  ]

  -- the chain's answer: a refusal wrote no approval
  chain_step-Kept :
      (env : Env) (c : Caller) (id : String) (steps : List ChainStep) (o : ChainResult × Db C)
      (db : Db C)
      → ((n : ℕ) → o.0 ≡ not_eligible n → o.1 ≡ db)
      → (o.0 ≡ no_chain → o.1 ≡ db)
      → Kept db (approve_step_done env c id steps o)
  unfolding Kept approve_step_done
  chain_step-Kept env c id steps (no_chain, db') db h k = k refl
  chain_step-Kept env c id steps (not_eligible n, db') db h k = h n refl
  chain_step-Kept env c id steps (next_step n, db') db h k =
      elim (Bool-cases (ltb n (length steps))) [ inl e ↦ rw e tt | inr e ↦ rw e tt ]

  refused_step-kept :
      (id user : String) (steps : List ChainStep) (db : Db C) (n : ℕ)
      → (record_chain_approval id user steps db).0 ≡ not_eligible n
      → (record_chain_approval id user steps db).1 ≡ db
  unfolding record_chain_approval
  refused_step-kept id user [] db n e = refl
  refused_step-kept id user (s ∷ rest) db n e = ground arith

  no_chain-kept :
      (id user : String) (steps : List ChainStep) (db : Db C)
      → (record_chain_approval id user steps db).0 ≡ no_chain
      → (record_chain_approval id user steps db).1 ≡ db
  unfolding record_chain_approval
  no_chain-kept id user [] db e = refl
  no_chain-kept id user (s ∷ rest) db e = ground arith

  service-Kept : (o : ChainResult) (db : Db C) → Kept db (service_answer o, db)
  unfolding Kept service_answer
  service-Kept no_chain db = refl
  service-Kept (not_eligible i) db = refl
  service-Kept (next_step i) db = refl

  with_chain-Kept :
      (env : Env) (c : Caller) (id : String) (steps : List ChainStep) (db : Db C)
      → Kept db (approve_with_chain env c id steps db)
  unfolding Kept approve_with_chain
  with_chain-Kept env c id steps db = elim (Option-cases (find_run id db)) [
    | inl e ↦ rw (e, approve_with_chain) refl
    | inr (r, e) ↦ elim (Bool-cases (is_pending_approval r.status)) [
      | inr k ↦ rw (e, approve_with_chain) (rw k refl)
      | inl k ↦ elim (Bool-cases (is_service c)) [
        | inl v ↦
            rw (e, approve_with_chain)
              (rw k (rw v (service-Kept (record_chain_approval id c.user_id steps db).0 db)))
        | inr v ↦
            rw (e, approve_with_chain)
              (rw k (
                rw v (
                  chain_step-Kept env c id steps (record_chain_approval id c.user_id steps db) db
                    (refused_step-kept id c.user_id steps db)
                    (no_chain-kept id c.user_id steps db))))
      ]
    ]
  ]

  approve_by-Kept :
      (env : Env) (c : Caller) (id : String) (l : LoadedChain) (db : Db C)
      → Kept db (approve_by env c id l db)
  unfolding Kept approve_by approve_found
  approve_by-Kept env c id decode_error db = refl
  approve_by-Kept env c id (chain []) db = elim (Bool-cases (is_service c)) [
    | inl v ↦ rw (v, approve_by) refl
    | inr v ↦
        elim (Option-cases (find? (λ x. is_run id x && is_pending_approval x.status) db.runs)) [
          | inl e ↦ rw (v, approve_by) (rw e refl)
          | inr (r, e) ↦ rw (v, approve_by) (rw e tt)
        ]
  ]
  approve_by-Kept env c id (chain (s ∷ rest)) db = with_chain-Kept env c id (s ∷ rest) db

  approve-Kept :
      (env : Env) (c : Caller) (id : String) (db : Db C) → Kept db (Review.approve env c id db)
  unfolding Kept Review.approve
  approve-Kept env c id db = elim (Bool-cases (may_act_on_run c id db)) [
    | inr m ↦ rw (m, Review.approve) refl
    | inl m ↦ elim (Option-cases (find_run id db)) [
      | inl e ↦ rw (m, Review.approve) (rw e refl)
      | inr (r, e) ↦
          rw (m, Review.approve)
            (rw e (approve_by-Kept env c id (load_stack_chain r.stack_id db) db))
    ]
  ]

  handle-Kept : (env : Env) (d : Decision) (db : Db C) → Kept db (handle env d db)
  unfolding handle
  handle-Kept env (Decision.confirm c id) db = confirm-Kept env c id db
  handle-Kept env (Decision.approve c id) db = approve-Kept env c id db
  handle-Kept env (Decision.discard c id) db = discard-Kept env c id db
  handle-Kept env (Decision.cancel c id) db = cancel-Kept env c id db
  handle-Kept env (Decision.chatops valid id action) db = chatops-Kept env valid id action db
  handle-Kept env (Decision.report token id status) db = report_status-Kept token id status db

  Kept-refused :
      (db : Db C) (o : Result (Unit {0}) × Db C) (n : ℕ) → Kept db o → o.0 ≡ http_error n → o.1 ≡ db
  unfolding Kept
  Kept-refused db (ok u, db') n k e = absurd (ground arith)
  Kept-refused db (http_error m, db') n k e = k

  -- While the database executes the statements whose values it can store: a request that is answered
  -- with an HTTP error has changed no table: no run, no approval, no job, no audit event. This holds for
  -- users, and for service accounts, whose ids the columns of an approver do not store.
  pub handle-refused :
      (env : Env) (d : Decision) (db : Db C) (n : ℕ)
      → (handle env d db).0 ≡ http_error n
      → (handle env d db).1 ≡ db
  handle-refused env d db n e = Kept-refused db (handle env d db) n (handle-Kept env d db) e
