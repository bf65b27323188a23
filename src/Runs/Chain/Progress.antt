-- ===== src/Runs/Chain/Progress.antt =====
-- The order of the steps of an approval chain.
use crucible_iap.Base.{
  ℕ, zero, suc, ◌+◌, ◌≤◌, ◌<◌, String, ◌≡◌, refl, sym, true, false, ◌&&◌, ◌⊎◌, some, List, [], ◌∷◌,
  inl, inr, arith, eq_iff, str_eq, Bool-cases, Option-cases, length, get_elem?, get_elem?-lt, leb,
  ap, any, ◌==◌, any-append, ==_iff,
}
use crucible_iap.Db.{ChainStep, ChainApproval, Db}
use crucible_iap.Runs.Chain.{
  approve_step, is_approved, pending_from, next_pending_step, insert_approval, is_eligible,
  record_chain_approval, next_step,
}

lt_cases : (a b : ℕ) → (a < b) ⊎ (b ≤ a)
lt_cases a b = ground arith

same_nat : (a b : ℕ) → a ≤ b → b ≤ a → a ≡ b
same_nat a b h k = omega (arith, h, k)

any-key :
    (run : String) (i : ℕ) (user : String) (rows : List ChainApproval)
    → any (λ a. str_eq a.run_id run && a.step_index == i && str_eq a.approver_id user) rows ≡ true
    → any (λ a. str_eq a.run_id run && a.step_index == i) rows ≡ true
any-key run i user [] h = h
any-key run i user (x ∷ xs) h = ground (arith, any-key run i user xs)

leb-false : (a b : ℕ) → b < a → leb a b ≡ false
leb-false a b h = ground arith

module _ {C : Type 0} where
  pending_from-bounds :
      (run : String) (db : Db C) (left i : ℕ)
      → (i ≤ pending_from run db left i) × (pending_from run db left i ≤ i + left)
  pending_from-bounds run db zero i = (ground arith, ground arith)
  pending_from-bounds run db (suc left) i =
      let (a, b) = pending_from-bounds run db left (suc i) in (ground arith, ground arith)

  pending_from-approved :
      (run : String) (db : Db C) (left i j : ℕ)
      → i ≤ j
      → j < pending_from run db left i
      → is_approved run j db ≡ true
  pending_from-approved run db zero i j h k = absurd (omega arith)
  pending_from-approved run db (suc left) i j h k = elim (Bool-cases (is_approved run i db)) [
    | inl e ↦ elim (Bool-cases (i == j)) [
      | inl f ↦ ground (arith, ==_iff i j)
      | inr f ↦ pending_from-approved run db left (suc i) j (ground arith) (ground arith)
    ]
    | inr e ↦ absurd (ground arith)
  ]

  pending_from-open :
      (run : String) (db : Db C) (left i : ℕ)
      → pending_from run db left i < i + left
      → is_approved run (pending_from run db left i) db ≡ false
  pending_from-open run db zero i h = absurd (omega arith)
  pending_from-open run db (suc left) i h = elim (Bool-cases (is_approved run i db)) [
    | inl e ↦ ground (arith, pending_from-open run db left (suc i))
    | inr e ↦ ground arith
  ]

  -- The pending step of a run lies within its chain, every step before it is approved, and it is
  -- itself not approved unless the chain is complete.
  pub next_pending_step-least :
      (run : String) (n : ℕ) (db : Db C)
      → (next_pending_step run n db ≤ n)
        × ((j : ℕ) → j < next_pending_step run n db → is_approved run j db ≡ true)
        × (next_pending_step run n db < n → is_approved run (next_pending_step run n db) db ≡ false)
  unfolding next_pending_step
  next_pending_step-least run n db = (
    ground (arith, pending_from-bounds run db n 0),
    (λ j h. pending_from-approved run db n 0 j (ground arith) h),
    (λ h. pending_from-open run db n 0 (omega (arith, h))),
  )

  -- an approval that is inserted, or there already
  inserted_approval-is_approved :
      (run : String) (i : ℕ) (user : String) (db : Db C)
      → is_approved run i (insert_approval run i user db) ≡ true
  inserted_approval-is_approved run i user db = ground (
    arith,
    eq_iff run run,
    any-key run i user db.chain_approvals,
    any-append (λ a. str_eq a.run_id run && a.step_index == i) db.chain_approvals
        ((record { run_id = run; step_index = i; approver_id = user }) ∷ []),
  )

  inserted_approval-keeps :
      (run : String) (i j : ℕ) (user : String) (db : Db C)
      → is_approved run j db ≡ true
      → is_approved run j (insert_approval run i user db) ≡ true
  inserted_approval-keeps run i j user db h = ground (
    arith,
    any-append (λ a. str_eq a.run_id run && a.step_index == j) db.chain_approvals
        ((record { run_id = run; step_index = i; approver_id = user }) ∷ []),
  )

  advanced :
      (run user : String) (n : ℕ) (db : Db C)
      → next_pending_step run n db < n
      → next_pending_step run n db
        < next_pending_step run n (insert_approval run (next_pending_step run n db) user db)
  advanced run user n db h =
      let cur = next_pending_step run n db in
      let db' = insert_approval run cur user db in
      let (b, before, pending) = next_pending_step-least run n db in
      let (b', before', pending') = next_pending_step-least run n db' in
      elim (lt_cases cur (next_pending_step run n db')) [
        | inl l ↦ l
        | inr l ↦ elim (lt_cases (next_pending_step run n db') cur) [
          | inl k ↦ absurd (
              ground (
                arith,
                pending' (omega (arith, l, h)),
                inserted_approval-keeps run cur (next_pending_step run n db') user db (before _ k),
              ))
          | inr k ↦ absurd (
              ground (
                arith,
                pending' (omega (arith, l, h)),
                inserted_approval-is_approved run cur user db,
                same_nat (next_pending_step run n db') cur l k,
              ))
        ]
      ]

  record-eligible :
      (run user : String) (x s : ChainStep) (rest : List ChainStep) (db : Db C)
      → next_pending_step run (suc (length rest)) db < suc (length rest)
      → get_elem? (x ∷ rest) (next_pending_step run (suc (length rest)) db) ≡ some s
      → is_eligible user s ≡ true
      → record_chain_approval run user (x ∷ rest) db ≡ (
        next_step (
            next_pending_step run
              (suc (length rest))
              (insert_approval run (next_pending_step run (suc (length rest)) db) user db)),
        insert_approval run (next_pending_step run (suc (length rest)) db) user db,
      )
  unfolding record_chain_approval approve_step
  record-eligible run user x s rest db l e h =
      rw (leb-false (suc (length rest)) (next_pending_step run (suc (length rest)) db) l)
        (rw (e, approve_step) (rw h refl))

  -- Approval of the pending step by a user whom that step lists moves the chain on: the answer is a
  -- later step, within the chain, and it is the pending step of the tables that result.
  pub eligible-advances :
      (run user : String) (steps : List ChainStep) (db : Db C) (s : ChainStep)
      → get_elem? steps (next_pending_step run (length steps) db) ≡ some s
      → is_eligible user s ≡ true
      → (n : ℕ) × ((record_chain_approval run user steps db).0 ≡ next_step n)
        × (next_pending_step run (length steps) db < n)
        × (n ≤ length steps)
        × (n ≡ next_pending_step run (length steps) (record_chain_approval run user steps db).1)
  unfolding record_chain_approval
  eligible-advances run user [] db s e h = absurd (ground arith)
  eligible-advances run user (x ∷ rest) db s e h =
      let n = suc (length rest) in
      let cur = next_pending_step run n db in
      let db' = insert_approval run cur user db in
      let below = get_elem?-lt (x ∷ rest) cur {a = s} e in
      let eq = record-eligible run user x s rest db below e h in
      (
        next_pending_step run n db',
        ap (λ o. o.0) eq,
        advanced run user n db below,
        (next_pending_step-least run n db').0,
        ap (λ o. next_pending_step run n o.1) (sym eq),
      )

  pub record-runs :
      (id user : String) (steps : List ChainStep) (db : Db C)
      → (record_chain_approval id user steps db).1.runs ≡ db.runs
  unfolding record_chain_approval
  record-runs id user [] db = refl
  record-runs id user (s ∷ rest) db = ground arith

  -- the step of an answer is the pending one of the tables that result
  pub record-next :
      (run user : String) (steps : List ChainStep) (db : Db C) (n : ℕ)
      → (record_chain_approval run user steps db).0 ≡ next_step n
      → n ≡ next_pending_step run (length steps) (record_chain_approval run user steps db).1
  unfolding record_chain_approval
  record-next run user [] db n e = absurd (ground arith)
  record-next run user (s ∷ rest) db n e =
      let len = suc (length rest) in
      let cur = next_pending_step run len db in
      elim (Bool-cases (leb len cur)) [
        | inl l ↦ ground arith
        | inr l ↦ elim (Option-cases (get_elem? (s ∷ rest) cur)) [
          | inl f ↦ ground arith
          | inr (x, f) ↦ ground arith
        ]
      ]
