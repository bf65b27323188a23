-- ===== src/Runs/Chain/View.antt =====
-- internal/runs/chain.go, `loadChainStatus`: the steps of a chain for the view of a run, and the step
-- that they show as the next one.
use crucible_iap.Base.{
  ℕ, suc, String, ◌≡◌, refl, ◌&&◌, Option, none, some, List, [], ◌∷◌, str_eq, ◌==◌, if◌then◌else◌,
  arith, length, any, is_some,
}
use crucible_iap.Db.{ChainStep, ChainApproval, Db}
use crucible_iap.Runs.Chain.{
  pending_from, next_pending_step, LoadedChain, load_stack_chain, chain, decode_error,
}

-- `ChainStepStatus`; `Approved` says whether there is an approver
pub record ChainStepStatus : Type 0 where
  pub step_index : ℕ
  pub name : String
  pub approver_ids : List String
  pub approved_by : Option String

-- the map of the approvals at one step: the last row of the step stays
abbrev pub approver_of : String → ℕ → List ChainApproval → Option String
approver_of run i [] = none
approver_of run i (a ∷ rest) =
    let later = approver_of run i rest in
    if is_some later
    then later
    else if str_eq a.run_id run && a.step_index == i
    then some a.approver_id
    else none

module _ {C : Type 0} where
  -- the loop over the chain, from step `i`
  unfoldable pub statuses_from : String → Db C → ℕ → List ChainStep → List ChainStepStatus
  statuses_from run db i [] = []
  statuses_from run db i (s ∷ steps) =
      (record {
        step_index = i;
        name = s.name;
        approver_ids = s.approver_user_ids;
        approved_by = approver_of run i db.chain_approvals;
      })
      ∷ statuses_from run db (suc i) steps

  chain_view : String → Db C → LoadedChain → Option (List ChainStepStatus)
  chain_view run db decode_error = none
  chain_view run db (chain steps) = some (statuses_from run db 0 steps)

  -- `loadChainStatus`; none is its error
  unfoldable pub load_chain_status : String → String → Db C → Option (List ChainStepStatus)
  unfolding chain_view statuses_from
  load_chain_status run stack_id db = chain_view run db (load_stack_chain stack_id db)

-- the first step of a view that has no approver, or the end of the chain
abbrev pub first_open : ℕ → List ChainStepStatus → ℕ
first_open i [] = i
first_open i (s ∷ rest) =
    let later = first_open (suc i) rest in if is_some s.approved_by then later else i

approver_of-is_approved :
    (run : String) (i : ℕ) (rows : List ChainApproval)
    → is_some (approver_of run i rows) ≡ any (λ a. str_eq a.run_id run && a.step_index == i) rows
approver_of-is_approved run i [] = refl
approver_of-is_approved run i (a ∷ rows) = ground (arith, approver_of-is_approved run i rows)

module _ {C : Type 0} where
  first_open-from :
      (run : String) (db : Db C) (i : ℕ) (steps : List ChainStep)
      → first_open i (statuses_from run db i steps) ≡ pending_from run db (length steps) i
  unfolding statuses_from
  first_open-from run db i [] = refl
  first_open-from run db i (s ∷ steps) = ground (
    arith,
    approver_of-is_approved run i db.chain_approvals,
    first_open-from run db (suc i) steps,
  )

  -- The view of a run shows as open exactly what the approval looks for: its first step without an
  -- approver is the next pending step of the chain.
  pub load_chain_status-first_open :
      (run stack_id : String) (db : Db C) (steps : List ChainStep)
      → load_stack_chain stack_id db ≡ chain steps
      → (view : List ChainStepStatus) × (load_chain_status run stack_id db ≡ some view)
        × (first_open 0 view ≡ next_pending_step run (length steps) db)
  unfolding load_chain_status chain_view next_pending_step
  load_chain_status-first_open run stack_id db steps h =
      (statuses_from run db 0 steps, rw (h, load_chain_status) refl, first_open-from run db 0 steps)
