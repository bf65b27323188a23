-- ===== src/Runs/Finalize/Deletion.antt =====
-- The end of an apply deletes a preview stack that is marked, with nothing between them that could
-- take the mark away.
use crucible_iap.Base.{
  String, ◌≡◌, refl, ◌∙◌, inl, inr, true, not, ◌&&◌, Option, none, some, List, [], ◌∷◌, arith,
  str_eq, find?, find?-passes, keep, update_where, find?-update_where, Bool-cases, Option-cases,
}
use crucible_iap.Db.{Stack, Dependency, RunJobArgs, apply, run_finished, finished, Db}
use crucible_iap.Db.Env.{Env, Float64}
use crucible_iap.Db.Query.{find_stack, notify}
use crucible_iap.Policy.{Policy}
use crucible_iap.Runs.PlanPolicies.{PlanInput}
use crucible_iap.Deps.Predicate.{RunFields}
use crucible_iap.Runs.Downstream.{
  fires, trigger_stack, trigger_all, trigger_downstream_stacks, load_run_fields, targets,
}
use crucible_iap.Runs.Finalize.{set_status, maybe_delete_preview_stack, complete}

abbrev pub mark : {C : Type 0} → String → List (Stack C) → List (Stack C)
mark id stacks =
    update_where (λ s. str_eq s.id id) (λ s. record s { delete_after_destroy = true }) stacks

marked-gone :
    {C : Type 0} (id : String) (stacks : List (Stack C))
    → find?
        (λ s. str_eq s.id id)
        (keep (λ s. not (str_eq s.id id && s.delete_after_destroy)) (mark id stacks))
      ≡ none
marked-gone id [] = refl
marked-gone id (s ∷ stacks) = elim (Bool-cases (str_eq s.id id)) [
  | inl k ↦ ground (arith, k, marked-gone id stacks)
  | inr k ↦ ground (arith, k, marked-gone id stacks)
]

marked-found :
    {C : Type 0} (id : String) (stacks : List (Stack C)) {p : Stack C}
    → find? (λ s. str_eq s.id id) stacks ≡ some p
    → find? (λ s. str_eq s.id id) (mark id stacks) ≡ some (record p { delete_after_destroy = true })
marked-found id stacks {p} h =
    find?-update_where (λ s. str_eq s.id id) (λ s. str_eq s.id id)
      (λ s. record s { delete_after_destroy = true }) stacks (λ s. refl)
    ∙ rw h (rw (find?-passes (λ s. str_eq s.id id) stacks {a = p} h) refl)

module _ {C : Type 0} where
  marked-deleted :
      (id : String) (stacks : List (Stack C)) (p : Stack C) (db : Db C)
      → find? (λ s. str_eq s.id id) stacks ≡ some p
      → db.stacks ≡ mark id stacks
      → find_stack id (maybe_delete_preview_stack id db) ≡ none
  unfolding maybe_delete_preview_stack
  marked-deleted id stacks p db f e =
      let found : find_stack id db ≡ some (record p { delete_after_destroy = true }) =
        rw e (marked-found id stacks {p = p} f) in
      rw (found, maybe_delete_preview_stack) (rw e (marked-gone id stacks))

  trigger_stack-stacks :
      (env : Env) (args : RunJobArgs) (d : Dependency) (s : Stack C) (db : Db C)
      → (trigger_stack env args d s db).stacks ≡ db.stacks
  trigger_stack-stacks env args d s db = elim (Option-cases s.worker_pool_id) [
    | inl e ↦ rw e refl
    | inr (p, e) ↦ rw e refl
  ]

module _ {C : Type 0} (F : Float64 C) where
  trigger_all-stacks :
      (env : Env) (args : RunJobArgs) (fields : Option (RunFields C)) (ds : List Dependency)
      (db : Db C)
      → (trigger_all F env args fields ds db).stacks ≡ db.stacks
  unfolding trigger_all
  trigger_all-stacks env args fields [] db = refl
  trigger_all-stacks env args fields (d ∷ rest) db =
      trigger_all-stacks env args fields rest _ ∙ elim (Bool-cases (fires F fields d)) [
        | inr e ↦ rw e refl
        | inl e ↦ elim (Option-cases (find_stack d.downstream_id db)) [
          | inl f ↦ rw e (rw f refl)
          | inr (s, f) ↦ rw e (rw f (trigger_stack-stacks env args d s db))
        ]
      ]

  triggered-stacks :
      (env : Env) (org : String) (args : RunJobArgs) (db : Db C)
      → (trigger_downstream_stacks F env org args db).stacks ≡ db.stacks
  unfolding trigger_downstream_stacks
  triggered-stacks env org args db =
      trigger_all-stacks env args (load_run_fields F args.run_id db) (targets args.stack_id org db)
        db

module _ {C : Type 0} ⦃F : Float64 C⦄ where
  -- The completion of an apply on a stack that is marked leaves no stack of its ID.
  pub complete-marked :
      (engine : Option (List (Policy (PlanInput C)))) (env : Env) (org : String) (args : RunJobArgs)
      (stacks : List (Stack C)) (p : Stack C) (db : Db C)
      → args.run_type ≡ apply
      → find? (λ s. str_eq s.id args.stack_id) stacks ≡ some p
      → db.stacks ≡ mark args.stack_id stacks
      → find_stack args.stack_id (complete engine env org args db).1 ≡ none
  unfolding complete set_status
  complete-marked engine env org args stacks p db h f e =
      rw (h, complete)
        (marked-deleted args.stack_id stacks p _ f (
          triggered-stacks F env org args (
            notify (run_finished args.run_id true)
              (set_status env org args.run_id finished (some env.now) db))
          ∙ e))
