-- ===== src/Validation/Verdict.antt =====
-- What a validation says of the policies that it ran.
use crucible_iap.Base.{
  ℕ, ◌+◌, String, ◌≡◌, refl, sym, ap, ◌∙◌, inl, inr, not, ◌&&◌, some, List, [], ◌∷◌, ◌++◌, str_eq,
  find?, find?-passes, find?-update_where, keep, any, length, length-append, arith, Option-cases,
  if-cases,
}
use crucible_iap.Db.{Stack}
use crucible_iap.Policy.{
  Policy, EvalRecord, PolicyResult, merge, allowed, record_of, parse_result_set, evaluate_all,
  evaluate_by_ids,
}
use crucible_iap.Validation.{
  ValidationDetail, Summary, status_of, detail_of, summarise_from, summarise, Check, Validations,
  load_validation_policy_ids, mark_validated, store_result, alert, find_check, validate_ids,
  validate_row, work, ValidationResult,
}

abbrev pub denials : List EvalRecord → ℕ
denials [] = 0
denials (r ∷ rs) = length r.result.deny + denials rs

abbrev pub warnings : List EvalRecord → ℕ
warnings [] = 0
warnings (r ∷ rs) = length r.result.warn + warnings rs

denials-append : (xs ys : List EvalRecord) → denials (xs ++ ys) ≡ denials xs + denials ys
denials-append [] ys = omega arith
denials-append (x ∷ xs) ys = omega (arith, denials-append xs ys)

warnings-append : (xs ys : List EvalRecord) → warnings (xs ++ ys) ≡ warnings xs + warnings ys
warnings-append [] ys = omega arith
warnings-append (x ∷ xs) ys = omega (arith, warnings-append xs ys)

summarise_from-counts :
    (rs : List EvalRecord) (deny warn : ℕ) (details : List ValidationDetail)
    → let s = summarise_from rs deny warn details in
      (s.status ≡ status_of (deny + denials rs) (warn + warnings rs))
      × (s.deny ≡ deny + denials rs)
      × (s.warn ≡ warn + warnings rs)
      × (length s.details ≡ length details + length rs)
summarise_from-counts [] deny warn details = (ground arith, omega arith, omega arith, omega arith)
summarise_from-counts (r ∷ rs) deny warn details =
    let (a, b, c, d) =
      summarise_from-counts rs (deny + length r.result.deny) (warn + length r.result.warn)
        (details ++ detail_of r ∷ []) in
    (
      a ∙ ground arith,
      b ∙ omega arith,
      c ∙ omega arith,
      d ∙ omega (arith, length-append details (detail_of r ∷ [])),
    )

summarise-counts :
    (rs : List EvalRecord)
    → ((summarise rs).status ≡ status_of (denials rs) (warnings rs))
      × ((summarise rs).deny ≡ denials rs)
      × ((summarise rs).warn ≡ warnings rs)
      × (length (summarise rs).details ≡ length rs)
unfolding summarise
summarise-counts rs =
    let (a, b, c, d) = summarise_from-counts rs 0 0 [] in
    (a ∙ ground arith, b ∙ omega arith, c ∙ omega arith, d ∙ omega arith)

-- what the merged result keeps of its records
abbrev Counted : PolicyResult → List EvalRecord → Type 0
Counted m es = (length m.deny ≡ denials es) × (length m.warn ≡ warnings es)

module _ {I : Type 0} where
  evaluate_all-Counted :
      (ps : List (Policy I)) (input : I) (m : PolicyResult) (es : List EvalRecord)
      {out : PolicyResult} {recs : List EvalRecord}
      → Counted m es
      → evaluate_all ps input m es ≡ some (out, recs)
      → Counted out recs
  unfolding evaluate_all
  evaluate_all-Counted [] input m es {out} {recs} (d, w) e = (ground arith, ground arith)
  evaluate_all-Counted (p ∷ ps) input m es {out} {recs} (d, w) e =
      elim (Option-cases (p.query input)) [
        | inl f ↦ absurd (ground arith)
        | inr (rs, f) ↦
            let r = parse_result_set rs in
            evaluate_all-Counted ps input (merge m r) (es ++ record_of p r ∷ []) {out = out}
              {recs = recs}
              (
                omega (arith, length-append m.deny r.deny, denials-append es (record_of p r ∷ [])),
                omega (arith, length-append m.warn r.warn, warnings-append es (record_of p r ∷ [])),
              )
              (ground arith)
      ]

  evaluate_by_ids-Counted :
      (engine : List (Policy I)) (ids : List String) (input : I) {out : PolicyResult}
      {recs : List EvalRecord}
      → evaluate_by_ids engine ids input ≡ some (out, recs)
      → Counted out recs
  unfolding evaluate_by_ids
  evaluate_by_ids-Counted engine ids input {out} {recs} e =
      evaluate_all-Counted (keep (λ p. any (λ id. str_eq id p.id) ids) engine) input allowed []
        {out = out} {recs = recs} (refl, refl) e

module _ {C : Type 0} where
  -- the check of a stack after it was marked, and after the result and the alert
  marked :
      (now : ℕ) (id status : String) (v : Validations C) (c : Check)
      → find_check id v ≡ some c
      → find_check id (mark_validated now id status v)
        ≡ some (record c { validation_status = status; last_validated_at = some now })
  marked now id status v c f =
      find?-update_where (λ c. str_eq c.stack_id id) (λ c. str_eq c.stack_id id)
        (λ c. record c { validation_status = status; last_validated_at = some now }) v.checks
        (λ c. refl)
      ∙ rw f (rw (find?-passes (λ c. str_eq c.stack_id id) v.checks {a = c} f) refl)

  -- an alert changes the alerts alone
  alert-checks :
      (id before : String) (m : Summary) (v : Validations C)
      → ((alert id before m v).checks ≡ v.checks) × ((alert id before m v).results ≡ v.results)
  alert-checks id before m v =
      if-cases (λ (a : Validations C). (a.checks ≡ v.checks) × (a.results ≡ v.results))
        (not (str_eq m.status before) && not (str_eq before "unknown")) (λ h. (refl, refl))
        (λ h. (refl, refl))

module _ {C I : Type 0} where
  -- Where the policies of a stack evaluate to a merged result, the validation succeeds: the status of
  -- the stack and the result that is stored count the denials and warnings of the merged result, the
  -- status is "fail" where there is a denial, else "warn" where there is a warning, else "pass", and
  -- the stack is validated as of now.
  pub work-verdict :
      (engine : List (Policy I)) (now : ℕ) (id first : String) (rest : List String) (input : I)
      (v : Validations C) (s : Stack C) (c : Check) (merged : PolicyResult)
      (records : List EvalRecord)
      → find? (λ s. str_eq s.id id) v.db.stacks ≡ some s
      → find_check id v ≡ some c
      → load_validation_policy_ids s v.db ≡ first ∷ rest
      → evaluate_by_ids engine (first ∷ rest) input ≡ some (merged, records)
      → (after : Validations C) × (work engine now id (some input) v ≡ some after)
        × (find_check id after
            ≡ some (record c {
              validation_status = status_of (length merged.deny) (length merged.warn);
              last_validated_at = some now;
            }))
        × (r : ValidationResult) × (after.results ≡ v.results ++ r ∷ [])
        × (r.summary.deny ≡ length merged.deny)
        × (r.summary.warn ≡ length merged.warn)
        × (length r.summary.details ≡ length records)
  unfolding work validate_row validate_ids
  work-verdict engine now id first rest input v s c merged records f g l e =
      let (d, w) =
        evaluate_by_ids-Counted engine (first ∷ rest) input {out = merged} {recs = records} e in
      let m = summarise records in
      let (st, sd, sw, sl) = summarise-counts records in
      let base = store_result id s m (mark_validated now id m.status v) in
      let (cs, rs) = alert-checks id c.validation_status m base in
      (
        alert id c.validation_status m base,
        rw (f, work) (rw (g, validate_row) (rw (l, validate_ids) (rw e refl))),
        ap (find? (λ c. str_eq c.stack_id id)) cs
            ∙ marked now id m.status v c g
            ∙ ap (λ t. some (record c { validation_status = t; last_validated_at = some now }))
                (st ∙ ground (arith, d, w)),
        record { stack_id = id; org_id = s.org_id; summary = m },
        rs,
        sd ∙ sym d,
        sw ∙ sym w,
        sl,
      )
