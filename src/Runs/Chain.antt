-- ===== src/Runs/Chain.antt =====
-- internal/runs/chain.go: sequential approver chains.
pub mod Progress
pub mod View
use crucible_iap.Base.{
  ℕ, zero, suc, ◌+◌, String, Bool, true, false, ◌&&◌, Option, none, some, List, [], ◌∷◌, ◌++◌,
  str_eq, leb, ◌==◌, if◌then◌else◌, length, get_elem?, any,
}
use crucible_iap.Db.{ChainStep, ChainColumn, null, malformed, steps, ChainApproval, Stack, Db}
use crucible_iap.Db.Query.{find_stack}

module _ {C : Type 0} where
  -- `approved[i]` of the map that `nextPendingStep` builds from the run's rows
  abbrev pub is_approved : String → ℕ → Db C → Bool
  is_approved run i db = any (λ a. str_eq a.run_id run && a.step_index == i) db.chain_approvals

  -- the loop of `nextPendingStep` from step `i`, with `left` steps to go
  abbrev pub pending_from : String → Db C → ℕ → ℕ → ℕ
  pending_from run db zero i = i
  pending_from run db (suc left) i =
      let later = pending_from run db left (suc i) in if is_approved run i db then later else i

  unfoldable pub next_pending_step : String → ℕ → Db C → ℕ
  next_pending_step run chain_len db = pending_from run db chain_len 0

  -- INSERT INTO run_chain_approvals … ON CONFLICT DO NOTHING, by the key of all three columns
  abbrev insert_approval : String → ℕ → String → Db C → Db C
  insert_approval run i user db =
      if any (λ a. str_eq a.run_id run && a.step_index == i && str_eq a.approver_id user)
        db.chain_approvals
      then db
      else record db {
        chain_approvals =
            db.chain_approvals
            ++ (record { run_id = run; step_index = i; approver_id = user }) ∷ [];
      }

-- What `recordChainApproval` returns: the next pending step, or one of its two errors.
pub data ChainResult : Type 0 where
  next_step : ℕ → ChainResult
  no_chain : ChainResult
  not_eligible : ℕ → ChainResult

abbrev pub is_eligible : String → ChainStep → Bool
is_eligible user step = any (λ uid. str_eq uid user) step.approver_user_ids

module _ {C : Type 0} where
  -- approval of the step `cur`, which the chain has
  unfoldable pub approve_step :
      String → String → List ChainStep → ℕ → Option ChainStep → Db C → ChainResult × Db C
  approve_step run user chain cur none db = (next_step cur, db)
  approve_step run user chain cur (some step) db =
      if is_eligible user step
      then (let db' = insert_approval run cur user db in
          (next_step (next_pending_step run (length chain) db'), db'))
      else (not_eligible cur, db)

  unfoldable pub record_chain_approval :
      String → String → List ChainStep → Db C → ChainResult × Db C
  unfolding approve_step
  record_chain_approval run user [] db = (no_chain, db)
  record_chain_approval run user (s ∷ rest) db =
      let chain = s ∷ rest in
      let cur = next_pending_step run (length chain) db in
      if leb (length chain) cur
      then (next_step cur, db)
      else approve_step run user chain cur (get_elem? chain cur) db

-- What `loadStackChain` returns: a chain, empty where none is configured, or a decoding error.
pub data LoadedChain : Type 0 where
  chain : List ChainStep → LoadedChain
  decode_error : LoadedChain

abbrev decode_chain : ChainColumn → LoadedChain
decode_chain null = chain []
decode_chain malformed = decode_error
decode_chain (steps l) = chain l

module _ {C : Type 0} where
  unfoldable pub load_stack_chain : String → Db C → LoadedChain
  load_stack_chain stack db = elim (find_stack stack db) [
    | none ↦ chain []
    | some s ↦ decode_chain s.approval_chain
  ]
