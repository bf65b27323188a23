-- ===== src/Worker/Approvals/Passes.antt =====
-- What the passes over the waiting runs do, one after the other and at any times.
use crucible_iap.Base.{
  ℕ, ◌+◌, String, ◌≡◌, refl, ap, ◌∙◌, inl, inr, Bool, true, false, not, ◌&&◌, List, [], ◌∷◌, str_eq,
  arith, keep, is_some, count_if, count_if-append, update_where, update_where_none, Option-cases,
  any,
}
use crucible_iap.Db.{
  Run, Notice, plan_complete, run_finished, budget_alert, chain_step_ready, escalation_alert, Db,
}
use crucible_iap.Db.Env.{Env}
use crucible_iap.Db.Query.{find_stack, update_runs, audit, notify}
use crucible_iap.Worker.Approvals.{
  escalation_minutes, is_escalated, set_escalated, alert_escalated, system_event, is_expired,
  set_discarded, log_expired, expire, run_approval_escalation,
}

abbrev pub is_alert : String → Notice → Bool
is_alert id (escalation_alert run m) = str_eq run id
is_alert id (plan_complete run) = false
is_alert id (run_finished run b) = false
is_alert id (budget_alert run) = false
is_alert id (chain_step_ready run n s) = false

module _ {C : Type 0} where
  log_expired-runs : (rs : List (Run C)) (db : Db C) → (log_expired rs db).runs ≡ db.runs
  unfolding log_expired
  log_expired-runs [] db = refl
  log_expired-runs (r ∷ rs) db = elim (Option-cases (find_stack r.stack_id db)) [
    | inl f ↦ rw (f, log_expired) (log_expired-runs rs db)
    | inr (s, f) ↦
        rw (f, log_expired)
          (log_expired-runs rs (audit (system_event s.org_id "run.approval_expired" r.id) db))
  ]

  none_expired :
      (env : Env) (hours : ℕ) (rs : List (Run C))
      → (any (is_expired env hours) (update_where (is_expired env hours) (set_discarded env) rs)
          ≡ false)
  none_expired env hours [] = refl
  none_expired env hours (r ∷ rs) = ground (arith, none_expired env hours rs)

  keep_none : (p : Run C → Bool) (rs : List (Run C)) → any p rs ≡ false → keep p rs ≡ []
  keep_none p [] h = refl
  keep_none p (r ∷ rs) h = ground (arith, keep_none p rs)

  expire_none :
      (env : Env) (hours : ℕ) (db : Db C)
      → any (is_expired env hours) db.runs ≡ false
      → expire env hours db ≡ db
  unfolding expire log_expired
  expire_none env hours db h =
      rw
        (
          keep_none (is_expired env hours) db.runs h,
          update_where_none (is_expired env hours) (set_discarded env) db.runs h,
        )
        refl

  -- The pass takes every run that has waited too long: another pass at the same time changes nothing,
  -- neither the runs nor the audit log.
  pub expire-idempotent :
      (env : Env) (hours : ℕ) (db : Db C)
      → (any (is_expired env hours) (expire env hours db).runs ≡ false)
        × (expire env hours (expire env hours db) ≡ expire env hours db)
  unfolding expire log_expired
  expire-idempotent env hours db =
      let after = expire env hours db in
      let gone : any (is_expired env hours) after.runs ≡ false =
        ap (any (is_expired env hours)) (
          log_expired-runs (keep (is_expired env hours) db.runs)
            (update_runs (is_expired env hours) (set_discarded env) db))
        ∙ none_expired env hours db.runs in
      (gone, expire_none env hours after gone)

  -- the escalation alerts that were sent for a run
  abbrev pub alerts : String → Db C → ℕ
  alerts id db = count_if (is_alert id) db.notices

  abbrev pub is_unescalated : String → Run C → Bool
  is_unescalated id r = str_eq r.id id && not (is_some r.escalated_at)

  -- the rows of a run that were not escalated yet
  abbrev pub unescalated : String → Db C → ℕ
  unescalated id db = count_if (is_unescalated id) db.runs

  alert_escalated_lem :
      (id : String) (rs : List (Run C)) (db : Db C)
      → ((alert_escalated rs db).runs ≡ db.runs)
        × (alerts id (alert_escalated rs db)
            ≡ alerts id db + count_if (λ r. str_eq r.id id && is_some (escalation_minutes r db)) rs)
  unfolding alert_escalated
  alert_escalated_lem id [] db = (refl, omega arith)
  alert_escalated_lem id (r ∷ rs) db = elim (Option-cases (find_stack r.stack_id db)) [
    | inl f ↦
        let (same, n) = alert_escalated_lem id rs db in rw (f, alert_escalated) (same, ground arith)
    | inr (s, f) ↦ elim (Option-cases s.escalation_after_minutes) [
      | inl m ↦
          let (same, n) = alert_escalated_lem id rs db in
          rw (f, alert_escalated) (rw m (same, ground arith))
      | inr (m, e) ↦
          let sent =
            audit (system_event s.org_id "run.escalated" r.id)
              (notify (escalation_alert r.id m) db) in
          let (same, n) = alert_escalated_lem id rs sent in
          rw (f, alert_escalated)
            (rw e (
              same,
              ground
                  (arith, count_if-append (is_alert id) db.notices (escalation_alert r.id m ∷ [])),
            ))
    ]
  ]

  count_if-keep :
      (p q t : Run C → Bool) (rs : List (Run C))
      → ((r : Run C) → q r ≡ true → t r ≡ true)
      → count_if (λ r. p r && t r) (keep q rs) ≡ count_if (λ r. p r && q r) rs
  count_if-keep p q t [] h = refl
  count_if-keep p q t (r ∷ rs) h = ground (arith, h r, count_if-keep p q t rs h)

  -- A row that is escalated is unescalated no more.
  moved :
      (env : Env) (id : String) (q : Run C → Bool) (rs : List (Run C))
      → ((r : Run C) → q r ≡ true → is_some r.escalated_at ≡ false)
      → count_if (is_unescalated id) (update_where q (set_escalated env) rs)
          + count_if (λ r. str_eq r.id id && q r) rs
        ≡ count_if (is_unescalated id) rs
  moved env id q [] h = refl
  moved env id q (r ∷ rs) h = ground (arith, h r, moved env id q rs h)

  is_escalated_lem :
      (env : Env) (db : Db C) (r : Run C)
      → is_escalated env db r ≡ true
      → (is_some (escalation_minutes r db) ≡ true) × (is_some r.escalated_at ≡ false)
  is_escalated_lem env db r h = elim (Option-cases (escalation_minutes r db)) [
    | inl e ↦ absurd (ground arith)
    | inr (m, e) ↦ (ground arith, ground arith)
  ]

  run_approval_escalation-moves :
      (env : Env) (id : String) (db : Db C)
      → alerts id (run_approval_escalation env db) + unescalated id (run_approval_escalation env db)
        ≡ alerts id db + unescalated id db
  unfolding run_approval_escalation
  run_approval_escalation-moves env id db =
      let q = is_escalated env db in
      let updated = record db { runs = update_where q (set_escalated env) db.runs } in
      let sent = alert_escalated_lem id (keep q db.runs) updated in
      let counted =
        count_if-keep (λ r. str_eq r.id id) q (λ r. is_some (escalation_minutes r db)) db.runs
          (λ r h. (is_escalated_lem env db r h).0) in
      rw sent.0 (
        omega
          (arith, sent.1, counted, moved env id q db.runs (λ r h. (is_escalated_lem env db r h).1)))

  -- the passes at the times of a list
  unfoldable pub escalation_passes : List Env → Db C → Db C
  escalation_passes [] db = db
  escalation_passes (env ∷ rest) db = escalation_passes rest (run_approval_escalation env db)

  -- Over any number of passes, at any times, as many alerts are sent for a run as rows of it come to
  -- be escalated: for a run with one row that was not escalated yet, one alert at most.
  pub escalation_passes-moves :
      (envs : List Env) (id : String) (db : Db C)
      → alerts id (escalation_passes envs db) + unescalated id (escalation_passes envs db)
        ≡ alerts id db + unescalated id db
  unfolding escalation_passes
  escalation_passes-moves [] id db = refl
  escalation_passes-moves (env ∷ rest) id db =
      escalation_passes-moves rest id (run_approval_escalation env db)
      ∙ run_approval_escalation-moves env id db
