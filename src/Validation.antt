-- ===== src/Validation.antt =====
-- internal/worker/validation.go and validation_schedule.go: the policies of type validation are run
-- against the state of a stack, by the schedule of the stack. The state is a document of type I, none
-- where it cannot be read; times are in seconds.
pub mod Verdict
use crucible_iap.Base.{
  ℕ, zero, suc, ◌+◌, ◌*◌, String, Bool, true, false, not, ◌&&◌, ◌||◌, Option, none, some, List, [],
  ◌∷◌, ◌++◌, str_eq, ltb, leb, if◌then◌else◌, find?, keep, map, length, update_where,
}
use crucible_iap.Base.Map.{holds}
use crucible_iap.Db.{PolicyRow, Link, Stack, Db}
use crucible_iap.Policy.{Policy, EvalRecord, PolicyResult, evaluate_by_ids}
use crucible_iap.Runs.PlanPolicies.{links, links_source}

-- `validationDetail`
pub record ValidationDetail : Type 0 where
  pub policy_id : String
  pub policy_name : String
  pub status : String
  pub deny : List String
  pub warn : List String

-- the four results of `summarise`
pub record Summary : Type 0 where
  pub status : String
  pub deny : ℕ
  pub warn : ℕ
  pub details : List ValidationDetail

-- the switch on two counts, in the loop and after it
abbrev pub status_of : ℕ → ℕ → String
status_of deny warn = if ltb 0 deny then "fail" else if ltb 0 warn then "warn" else "pass"

abbrev pub detail_of : EvalRecord → ValidationDetail
detail_of r = record {
  policy_id = r.policy_id;
  policy_name = r.policy_name;
  status = status_of (length r.result.deny) (length r.result.warn);
  deny = r.result.deny;
  warn = r.result.warn;
}

-- the loop over the records
abbrev pub summarise_from : List EvalRecord → ℕ → ℕ → List ValidationDetail → Summary
summarise_from [] deny warn details = record {
  status = status_of deny warn;
  deny = deny;
  warn = warn;
  details = details;
}
summarise_from (r ∷ records) deny warn details =
    summarise_from records (deny + length r.result.deny) (warn + length r.result.warn)
      (details ++ detail_of r ∷ [])

-- `summarise`
unfoldable pub summarise : List EvalRecord → Summary
summarise records = summarise_from records 0 0 []

-- the columns of a stack that the validation reads and writes
pub record Check : Type 0 where
  pub stack_id : String
  pub validation_interval : ℕ
  pub validation_status : String
  pub last_validated_at : Option ℕ

-- a row of stack_validation_results
pub record ValidationResult : Type 0 where
  pub stack_id : String
  pub org_id : String
  pub summary : Summary

pub record Alert : Type 0 where
  pub stack_id : String
  pub status : String
  pub deny : ℕ
  pub warn : ℕ

pub record Validations (C : Type 0) : Type 0 where
  pub db : Db C
  pub checks : List Check
  pub results : List ValidationResult
  pub alerts : List Alert

module _ {C : Type 0} where
  -- a policy of the type, attached to the stack, its organisation or a source of it. A row of
  -- policies has no organisation here: the policies are those of the organisation of the stack.
  abbrev pub validates : Stack C → Db C → PolicyRow → Bool
  validates s db p =
      str_eq p.type "validation"
      && (links s.id p.id db.stack_policies
          || links s.org_id p.id db.org_policy_defaults
          || links_source s.id p.git_source_id db.stack_policy_sources)

  -- `loadValidationPolicyIDs`
  unfoldable pub load_validation_policy_ids : Stack C → Db C → List String
  load_validation_policy_ids s db = map (λ p. p.id) (keep (validates s db) db.policies)

  -- `markValidated`
  abbrev pub mark_validated : ℕ → String → String → Validations C → Validations C
  mark_validated now id status v = record v {
    checks =
        update_where (λ c. str_eq c.stack_id id)
          (λ c. record c { validation_status = status; last_validated_at = some now }) v.checks;
  }

  -- `storeResult`
  abbrev pub store_result : String → Stack C → Summary → Validations C → Validations C
  store_result id s m v = record v {
    results = v.results ++ (record { stack_id = id; org_id = s.org_id; summary = m }) ∷ [];
  }

  abbrev pub alert : String → String → Summary → Validations C → Validations C
  alert id before m v =
      if not (str_eq m.status before) && not (str_eq before "unknown")
      then record v {
        alerts =
            v.alerts
            ++ (record { stack_id = id; status = m.status; deny = m.deny; warn = m.warn }) ∷ [];
      }
      else v

  abbrev pub find_check : String → Validations C → Option Check
  find_check id v = find? (λ c. str_eq c.stack_id id) v.checks

module _ {C I : Type 0} where
  validate_ids :
      List (Policy I)
      → ℕ
      → String
      → Stack C
      → String
      → List String
      → Option I
      → Validations C
      → Option (Validations C)
  validate_ids engine now id s before [] state v = some (mark_validated now id "unknown" v)
  validate_ids engine now id s before (policy ∷ ids) none v =
      some (mark_validated now id "unknown" v)
  validate_ids engine now id s before (policy ∷ ids) (some input) v =
      elim (evaluate_by_ids engine (policy ∷ ids) input) [
        | none ↦ none
        | some (merged, records) ↦
            let m = summarise records in
            some (alert id before m (store_result id s m (mark_validated now id m.status v)))
      ]

  validate_row :
      List (Policy I)
      → ℕ
      → String
      → Option (Stack C)
      → Option Check
      → Option I
      → Validations C
      → Option (Validations C)
  unfolding validate_ids
  validate_row engine now id none c state v = none
  validate_row engine now id (some s) none state v = none
  validate_row engine now id (some s) (some c) state v =
      validate_ids engine now id s c.validation_status (load_validation_policy_ids s v.db) state v

  -- `Work`; none is the error, after which the job is tried again
  unfoldable pub work :
      List (Policy I) → ℕ → String → Option I → Validations C → Option (Validations C)
  unfolding validate_row
  work engine now id state v =
      validate_row engine now id (find? (λ s. str_eq s.id id) v.db.stacks) (find_check id v) state v

-- the WHERE of `runValidationSchedule`
unfoldable pub is_due : ℕ → Bool → Check → Bool
is_due now is_disabled c =
    ltb 0 c.validation_interval && not is_disabled && (elim c.last_validated_at [
      | none ↦ true
      | some t ↦ leb (t + c.validation_interval * 60) now
    ])
