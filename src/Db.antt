-- ===== src/Db.antt =====
-- The PostgreSQL tables that the run lifecycle reads and writes (api/migrations), the River job
-- queue, the audit log and the notifications that were sent. `C` is the type of a cost column, a
-- double: only the budget gate computes with it.
pub mod Env
pub mod Query
use crucible_iap.Base.{ℕ, String, Bool, true, false, Option, none, some, List, [], ◌∷◌, ◌++◌}
use crucible_iap.Base.Int.{ℤ}

-- the enum run_status
pub data RunStatus : Type 0 where
  queued preparing planning unconfirmed pending_approval confirmed applying : RunStatus
  finished failed canceled discarded : RunStatus

-- the enum run_type
pub data RunType : Type 0 where
  tracked proposed destroy : RunType

pub record Run (C : Type 0) : Type 0 where
  pub id : String
  pub stack_id : String
  pub status : RunStatus
  pub type : RunType
  pub trigger : String
  pub worker_pool_id : Option String
  pub is_drift : Bool
  pub var_overrides : List String
  pub annotation : Option String
  pub approved_by : Option String
  pub approved_at : Option ℕ
  pub escalated_at : Option ℕ
  pub queued_at : ℕ
  pub started_at : Option ℕ
  pub finished_at : Option ℕ
  pub plan_add : Option ℤ
  pub plan_change : Option ℤ
  pub plan_destroy : Option ℤ
  pub cost_add : Option C
  pub cost_change : Option C
  pub cost_remove : Option C
  pub cost_currency : Option String
  pub triggered_by_dep_id : Option String
  pub retry_attempt : ℕ

-- one step of an approval chain
pub record ChainStep : Type 0 where
  pub name : String
  pub approver_user_ids : List String

-- the JSON column stacks.approval_chain
pub data ChainColumn : Type 0 where
  null : ChainColumn
  malformed : ChainColumn
  steps : List ChainStep → ChainColumn

-- the columns of a stack that a job is built from
pub record JobSource : Type 0 where
  pub tool : String
  pub tool_version : String
  pub runner_image : String
  pub repo_url : String
  pub repo_branch : String
  pub project_root : String

pub record Stack (C : Type 0) : Type 0 where
  pub id : String
  pub org_id : String
  pub name : String
  pub slug : String
  pub project_id : Option String
  pub source : JobSource
  pub auto_apply : Bool
  pub is_disabled : Bool
  pub is_locked : Bool
  pub worker_pool_id : Option String
  pub approval_chain : ChainColumn
  pub auto_remediate_drift : Bool
  pub delete_after_destroy : Bool
  pub plan_block_on_alert : Bool
  pub plan_alert_add : Option ℤ
  pub plan_alert_change : Option ℤ
  pub plan_alert_destroy : Option ℤ
  pub budget_threshold_usd : Option C
  pub max_concurrent_runs : Option ℕ
  pub escalation_after_minutes : Option ℕ
  pub scheduled_destroy_at : Option ℕ

pub record OrgMember : Type 0 where
  pub org_id : String
  pub user_id : String
  pub role : String

pub record StackMember : Type 0 where
  pub stack_id : String
  pub user_id : String
  pub role : String

pub record ChainApproval : Type 0 where
  pub run_id : String
  pub step_index : ℕ
  pub approver_id : String

pub record Dependency : Type 0 where
  pub id : String
  pub upstream_id : String
  pub downstream_id : String
  pub trigger_when_field : String
  pub trigger_when_op : String
  pub trigger_when_value : String
  pub retry_count : ℕ
  pub retry_backoff_seconds : ℕ

pub record OrgQuota : Type 0 where
  pub org_id : String
  pub max_concurrent_runs : Option ℕ

pub record Project (C : Type 0) : Type 0 where
  pub id : String
  pub name : String
  pub monthly_budget_usd : Option C
  pub budget_enforcement : String
  pub block_on_forecast : Bool

-- a row of the table policies
pub record PolicyRow : Type 0 where
  pub id : String
  pub type : String
  pub is_active : Bool
  pub git_source_id : Option String

-- a row of run_policy_results
pub record PolicyRecord : Type 0 where
  pub run_id : String
  pub policy_id : String
  pub policy_name : String
  pub policy_type : String
  pub allow : Bool
  pub deny_msgs : List String
  pub warn_msgs : List String

-- a row of a table that only relates two ids: (stack, policy), (org, policy), (stack, git source)
abbrev pub Link : Type 0
Link = String × String

-- The phase that a job runs: the type of its run, or the apply of a confirmed plan.
pub data JobType : Type 0 where
  typed : RunType → JobType
  apply : JobType

-- queue.RunJobArgs
pub record RunJobArgs : Type 0 where
  pub run_id : String
  pub stack_id : String
  pub source : JobSource
  pub run_type : JobType
  pub api_url : String
  pub auto_apply : Bool
  pub var_overrides : List String

-- A row of the job queue; a job that is not delayed has no time.
pub record Job : Type 0 where
  pub args : RunJobArgs
  pub scheduled_at : Option ℕ

-- the columns of an audit event that tell one from another
pub record Event : Type 0 where
  pub actor_id : String
  pub actor_type : String
  pub action : String
  pub resource_id : String
  pub org_id : String

pub data Notice : Type 0 where
  plan_complete : String → Notice
  run_finished : String → Bool → Notice
  budget_alert : String → Notice
  chain_step_ready : String → ℕ → ChainStep → Notice
  escalation_alert : String → ℕ → Notice

-- `serial` counts the identifiers that gen_random_uuid() has given out.
pub record Db (C : Type 0) : Type 0 where
  pub runs : List (Run C)
  pub stacks : List (Stack C)
  pub org_members : List OrgMember
  pub stack_members : List StackMember
  pub chain_approvals : List ChainApproval
  pub dependencies : List Dependency
  pub org_quotas : List OrgQuota
  pub projects : List (Project C)
  pub policies : List PolicyRow
  pub stack_policies : List Link
  pub org_policy_defaults : List Link
  pub stack_policy_sources : List Link
  pub run_policy_results : List PolicyRecord
  pub jobs : List Job
  pub audit_events : List Event
  pub notices : List Notice
  pub serial : ℕ

abbrev pub no_source : JobSource
no_source = record {
  tool = "";
  tool_version = "";
  runner_image = "";
  repo_url = "";
  repo_branch = "";
  project_root = "";
}
