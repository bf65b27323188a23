-- ===== src/Policy/Merging.antt =====
-- What the merged result of several policies says, and when there is one.
use crucible_iap.Base.{
  String, ◌≡◌, refl, Bool, true, not, ◌&&◌, some, List, [], ◌∷◌, ◌++◌, inl, inr, arith,
  Option-cases, any, any-append, keep, is_some, str_eq,
}
use mathlib.Core.Option
use crucible_iap.Policy.{
  ResultSet, PolicyResult, Policy, EvalRecord, Json, parse_object, parse_result_set, is_nil, merge,
  allowed, record_of, evaluate_all, evaluate_by_ids, merge_all, evaluate,
}

is_nil-append : (a b : List String) → is_nil (a ++ b) ≡ (is_nil a && is_nil b)
is_nil-append [] b = refl
is_nil-append (x ∷ a) b = refl

-- the record of a policy that denies, or asks for approval
abbrev pub denies : EvalRecord → Bool
denies e = not e.result.allow

abbrev pub asks : EvalRecord → Bool
asks e = e.result.require_approval

parse_object-allow : (v : Json) → (parse_object v).allow ≡ is_nil (parse_object v).deny
unfolding parse_object
parse_object-allow (Json.object f) = refl
parse_object-allow Json.null = refl
parse_object-allow (Json.bool b) = refl
parse_object-allow (Json.string s) = refl
parse_object-allow Json.number = refl
parse_object-allow (Json.array i) = refl

-- A policy allows exactly when it gives no denial.
parse-allow : (rs : ResultSet) → (parse_result_set rs).allow ≡ is_nil (parse_result_set rs).deny
unfolding parse_result_set
parse-allow [] = refl
parse-allow ([] ∷ rest) = refl
parse-allow ((v ∷ vs) ∷ rest) = parse_object-allow v

-- what the loop keeps between the merged result and its records
abbrev Merged : PolicyResult → List EvalRecord → Type 0
Merged m es =
    (m.allow ≡ true) × (is_nil m.deny ≡ not (any denies es)) × (m.require_approval ≡ any asks es)

module _ {I : Type 0} where
  merge-Merged :
      (p : Policy I) (rs : ResultSet) (m : PolicyResult) (es : List EvalRecord)
      → Merged m es
      → Merged (merge m (parse_result_set rs)) (es ++ record_of p (parse_result_set rs) ∷ [])
  merge-Merged p rs m es (a, d, q) = (
    a,
    ground (
      arith,
      is_nil-append m.deny (parse_result_set rs).deny,
      parse-allow rs,
      any-append denies es (record_of p (parse_result_set rs) ∷ []),
    ),
    ground (arith, any-append asks es (record_of p (parse_result_set rs) ∷ [])),
  )

  evaluate_all-Merged :
      (ps : List (Policy I)) (input : I) (m : PolicyResult) (es : List EvalRecord)
      {out : PolicyResult} {recs : List EvalRecord}
      → Merged m es
      → evaluate_all ps input m es ≡ some (out, recs)
      → (out.allow ≡ not (any denies recs)) × (out.require_approval ≡ any asks recs)
  unfolding evaluate_all
  evaluate_all-Merged [] input m es {out} {recs} (a, d, q) e = (ground arith, ground arith)
  evaluate_all-Merged (p ∷ ps) input m es {out} {recs} h e = elim (Option-cases (p.query input)) [
    | inl f ↦ absurd (ground arith)
    | inr (rs, f) ↦
        evaluate_all-Merged ps input (merge m (parse_result_set rs))
          (es ++ record_of p (parse_result_set rs) ∷ []) {out = out} {recs = recs}
          (merge-Merged p rs m es h) (ground arith)
  ]

  -- The merged result allows exactly when no policy that was evaluated denies, and it asks for
  -- approval exactly when one of them does.
  pub evaluate_by_ids-verdict :
      (engine : List (Policy I)) (ids : List String) (input : I) {out : PolicyResult}
      {recs : List EvalRecord}
      → evaluate_by_ids engine ids input ≡ some (out, recs)
      → (out.allow ≡ not (any denies recs)) × (out.require_approval ≡ any asks recs)
  unfolding evaluate_by_ids
  evaluate_by_ids-verdict engine ids input {out} {recs} e =
      evaluate_all-Merged (keep (λ p. any (λ id. str_eq id p.id) ids) engine) input allowed []
        {out = out} {recs = recs} (refl, refl, refl) e

  abbrev pub breaks : I → Policy I → Bool
  breaks input p = not (is_some (p.query input))

  evaluate_all-fails :
      (ps : List (Policy I)) (input : I) (m : PolicyResult) (es : List EvalRecord)
      → is_some (evaluate_all ps input m es) ≡ not (any (breaks input) ps)
  unfolding evaluate_all
  evaluate_all-fails [] input m es = refl
  evaluate_all-fails (p ∷ ps) input m es = elim (Option-cases (p.query input)) [
    | inl f ↦ ground arith
    | inr (rs, f) ↦ ground (
      arith,
      evaluate_all-fails ps input (merge m (parse_result_set rs))
          (es ++ record_of p (parse_result_set rs) ∷ []),
    )
  ]

  -- An evaluation by identifiers has a result exactly when the query of every policy that it selects
  -- has one: a single error drops the verdicts of all the others.
  pub evaluate_by_ids-total_iff :
      (engine : List (Policy I)) (ids : List String) (input : I)
      → is_some (evaluate_by_ids engine ids input)
        ≡ not (any (breaks input) (keep (λ p. any (λ id. str_eq id p.id) ids) engine))
  unfolding evaluate_by_ids
  evaluate_by_ids-total_iff engine ids input =
      evaluate_all-fails (keep (λ p. any (λ id. str_eq id p.id) ids) engine) input allowed []

  merge_all-evaluate_all :
      (ps : List (Policy I)) (input : I) (m : PolicyResult) (es : List EvalRecord)
      → merge_all ps input m ≡ Option.map (λ o. o.0) (evaluate_all ps input m es)
  unfolding merge_all evaluate_all
  merge_all-evaluate_all [] input m es = refl
  merge_all-evaluate_all (p ∷ ps) input m es = elim (Option-cases (p.query input)) [
    | inl f ↦ ground arith
    | inr (rs, f) ↦ ground (
      arith,
      merge_all-evaluate_all ps input (merge m (parse_result_set rs))
          (es ++ record_of p (parse_result_set rs) ∷ []),
    )
  ]

  -- `Evaluate` by a type and `EvaluateByIDs` by identifiers give one merged result, if they select the
  -- same policies of the engine.
  pub evaluate-agrees :
      (engine : List (Policy I)) (type : String) (ids : List String) (input : I)
      → keep (λ p. str_eq p.type type) engine ≡ keep (λ p. any (λ id. str_eq id p.id) ids) engine
      → evaluate engine type input ≡ Option.map (λ o. o.0) (evaluate_by_ids engine ids input)
  unfolding evaluate evaluate_by_ids
  evaluate-agrees engine type ids input h =
      rw h (
        merge_all-evaluate_all (keep (λ p. any (λ id. str_eq id p.id) ids) engine) input allowed [])
