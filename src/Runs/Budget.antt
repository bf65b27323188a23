-- ===== src/Runs/Budget.antt =====
-- The gates on cost: `checkBudgetThresholds`, `applyProjectCostQuota` and `stackBlocksOnAlert` of
-- internal/runs/finalize.go, and internal/projects/budgets.go. Floats are a parameter.
use crucible_iap.Base.{
  String, Bool, true, false, not, ◌&&◌, ◌||◌, Option, none, some, List, [], ◌∷◌, ◌++◌, str_eq, leb,
  ltb, if◌then◌else◌, find?,
}
use crucible_iap.Base.Int.{ℤ, pos, ltb_ℤ}
use crucible_iap.Db.{Run, Stack, Project, budget_alert, Db}
use crucible_iap.Db.Env.{Env, Float64}
use crucible_iap.Db.Query.{find_run, find_stack, notify}
use crucible_iap.Runs.Status.{is_finished}

-- one breached threshold, in place of its text
pub data Breach : Type 0 where
  adds changes destroys cost : Breach

abbrev pub or_zero : Option ℤ → ℤ
or_zero none = pos 0
or_zero (some n) = n

abbrev pub over : ℤ → Option ℤ → Bool
over n none = false
over n (some limit) = ltb_ℤ limit n

abbrev pub when : Bool → Breach → List Breach
when true b = b ∷ []
when false b = []

module _ {C : Type 0} ⦃F : Float64 C⦄ where
  abbrev pub over_cost : Option C → Option C → Bool
  over_cost none limit = false
  over_cost (some c) none = false
  over_cost (some c) (some limit) = F.gt c limit

  abbrev pub breaches : Run C → Stack C → List Breach
  breaches r s =
      when (over (or_zero r.plan_add) s.plan_alert_add) adds
      ++ (when (over (or_zero r.plan_change) s.plan_alert_change) changes
          ++ (when (over (or_zero r.plan_destroy) s.plan_alert_destroy) destroys
              ++ when (over_cost r.cost_add s.budget_threshold_usd) cost))

  -- `checkBudgetThresholds`
  unfoldable pub check_budget_thresholds : String → Db C → List Breach
  check_budget_thresholds id db = elim (find_run id db) [
    | none ↦ []
    | some r ↦ elim (find_stack r.stack_id db) [ none ↦ [] | some s ↦ breaches r s ]
  ]

  -- the stacks of a project, by the run's stack
  abbrev in_project : String → String → Db C → Bool
  in_project project stack_id db = elim (find_stack stack_id db) [
    | none ↦ false
    | some s ↦ elim s.project_id [ none ↦ false | some p ↦ str_eq p project ]
  ]

  abbrev counts_to_spend : Env → String → Db C → Run C → Bool
  counts_to_spend env project db r =
      in_project project r.stack_id db && is_finished r.status && leb env.month_start r.queued_at

  abbrev spend_from : Env → String → Db C → C → List (Run C) → C
  spend_from env project db total [] = total
  spend_from env project db total (r ∷ rest) =
      spend_from env project db
        (elim r.cost_change [
          | none ↦ total
          | some c ↦ if counts_to_spend env project db r then F.add total c else total
        ])
        rest

  -- `MonthToDateSpend`
  unfoldable pub month_to_date_spend : Env → String → Db C → C
  month_to_date_spend env project db = spend_from env project db F.zero_cost db.runs

  -- `ForecastEndOfMonthSpend`
  unfoldable pub forecast_end_of_month_spend : Env → C → C
  forecast_end_of_month_spend env mtd =
      let elapsed = if ltb env.day_of_month 1 then 1 else env.day_of_month in
      F.div (F.mul mtd (F.of_int (pos env.days_in_month))) (F.of_int (pos elapsed))

-- `CostQuotaResult`, for a run that has a quota; the amounts that only the texts show are left out.
pub record CostQuota (C : Type 0) : Type 0 where
  pub exceeded : Bool
  pub forecast_exceeded : Bool
  pub block_on_forecast : Bool
  pub enforcement : String
  pub spend : C
  pub run_cost_change : C
  pub projected : C
  pub forecast : C
  pub budget : C
  pub project_name : String

module _ {C : Type 0} ⦃F : Float64 C⦄ where
  abbrev quota_of : Env → Project C → C → C → Db C → CostQuota C
  quota_of env p budget change db =
      let spend = month_to_date_spend env p.id db in
      let projected = F.add spend change in
      let forecast = forecast_end_of_month_spend env projected in
      record {
        exceeded = F.gt projected budget;
        forecast_exceeded = F.gt forecast budget;
        block_on_forecast = p.block_on_forecast;
        enforcement = p.budget_enforcement;
        spend = spend;
        run_cost_change = change;
        projected = projected;
        forecast = forecast;
        budget = budget;
        project_name = p.name;
      }

  -- the LEFT JOIN of a stack with its project
  abbrev project_of : Stack C → Db C → Option (Project C)
  project_of s db = elim s.project_id [
    | none ↦ none
    | some id ↦ find? (λ p. str_eq p.id id) db.projects
  ]

  -- `CheckCostQuota`; `none` where no quota applies or the run is gone
  unfoldable pub check_cost_quota : Env → String → Db C → Option (CostQuota C)
  check_cost_quota env id db = elim (find_run id db) [
    | none ↦ none
    | some r ↦ elim (find_stack r.stack_id db) [
      | none ↦ none
      | some s ↦ elim (project_of s db) [
        | none ↦ none
        | some p ↦ elim p.monthly_budget_usd [
          | none ↦ none
          | some budget ↦ elim r.cost_change [
            | none ↦ none
            | some change ↦ some (quota_of env p budget change db)
          ]
        ]
      ]
    ]
  ]

  abbrev is_breach : CostQuota C → Bool
  is_breach q = q.exceeded || (q.block_on_forecast && q.forecast_exceeded && not q.exceeded)

  -- `applyProjectCostQuota`: whether auto-apply is held back, and the alert
  unfoldable pub apply_project_cost_quota : Env → String → Db C → Bool × Db C
  apply_project_cost_quota env id db = elim (check_cost_quota env id db) [
    | none ↦ (false, db)
    | some q ↦
        if is_breach q
        then (str_eq q.enforcement "block", notify (budget_alert id) db)
        else (false, db)
  ]

module _ {C : Type 0} where
  -- `stackBlocksOnAlert`
  unfoldable pub stack_blocks_on_alert : String → Db C → Bool
  stack_blocks_on_alert stack db = elim (find_stack stack db) [
    | none ↦ false
    | some s ↦ s.plan_block_on_alert
  ]
