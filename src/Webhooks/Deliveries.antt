-- ===== src/Webhooks/Deliveries.antt =====
-- internal/webhooks/handler.go: the tables of the webhooks, and the record of a delivery. A row of
-- stacks is split in two: the columns that only the webhooks read are a record of their own.
use crucible_iap.Base.{
  ℕ, String, Bool, Option, none, List, [], ◌∷◌, ◌++◌, str_eq, ltb, if◌then◌else◌, find?, length,
}
use crucible_iap.Db.{JobSource, Db}
use crucible_iap.Db.Env.{Env, Result, ok}

-- the columns that filter the events of a stack
pub record Filters : Type 0 where
  pub trigger_paths : List String
  pub skip_commit_message_patterns : List String
  pub skip_actors : List String

-- the other columns of a stack that the webhooks read
pub record Hook : Type 0 where
  pub stack_id : String
  pub webhook_secret : Option String
  pub filters : Filters
  pub module_namespace : Option String
  pub module_name : Option String
  pub module_provider : Option String
  pub pr_preview_enabled : Bool
  pub pr_preview_template_id : Option String
  pub preview_source_stack_id : Option String
  pub preview_pr_number : Option ℕ

-- a row of stack_templates
pub record Template : Type 0 where
  pub id : String
  pub org_id : String
  pub source : JobSource
  pub auto_apply : Bool

-- queue.ModulePublishArgs
pub record ModulePublishArgs : Type 0 where
  pub stack_id : String
  pub tag_name : String
  pub commit_sha : String
  pub namespace : String
  pub name : String
  pub provider : String
  pub version : String

-- what a delivery says of its request
pub record Arrival (B : Type 0) : Type 0 where
  pub forge : String
  pub event_type : String
  pub delivery_id : String
  pub payload : B

-- a row of webhook_deliveries
pub record Delivery (B : Type 0) : Type 0 where
  pub id : String
  pub stack_id : String
  pub arrival : Arrival B
  pub outcome : String
  pub skip_reason : String
  pub run_id : Option String

pub record Inbox (C B : Type 0) : Type 0 where
  pub db : Db C
  pub hooks : List Hook
  pub templates : List Template
  pub publishes : List ModulePublishArgs
  pub deliveries : List (Delivery B)

-- json.Valid, and the objects that stand for a payload that is not stored as it came
pub record Payloads (B : Type 0) : Type 0 where
  pub size : B → ℕ
  pub valid : B → Bool
  pub truncated : ℕ → B
  pub raw : B → B
  pub empty : B

-- `trimPayload`
unfoldable pub trim_payload : {B : Type 0} → Payloads B → B → B
trim_payload P body =
    if ltb 65536 (P.size body)
    then P.truncated (P.size body)
    else if P.valid body
    then body
    else P.raw body

-- a new row of webhook_deliveries; their identifiers are drawn on their own
abbrev pub delivery_row :
    {B : Type 0} → Env → ℕ → String → Arrival B → String → String → Option String → Delivery B
delivery_row env serial stack_id a outcome reason run_id = record {
  id = env.uuid serial;
  stack_id = stack_id;
  arrival = a;
  outcome = outcome;
  skip_reason = reason;
  run_id = run_id;
}

module _ {C B : Type 0} where
  -- `recordDelivery`, where the database takes the payload; it ignores an INSERT that fails
  abbrev pub record_delivery :
      Env → String → Arrival B → String → String → Option String → Inbox C B → Inbox C B
  record_delivery env stack_id a outcome reason run_id st = record st {
    deliveries =
        st.deliveries
        ++ delivery_row env (length st.deliveries) stack_id a outcome reason run_id ∷ [];
  }

  -- the answer to an event that is skipped
  abbrev pub skip : Env → String → Arrival B → String → Inbox C B → Result (Unit {0}) × Inbox C B
  skip env stack_id a reason st = (ok tt, record_delivery env stack_id a "skipped" reason none st)

  abbrev pub find_hook : String → Inbox C B → Option Hook
  find_hook id st = find? (λ h. str_eq h.stack_id id) st.hooks
