-- ===== src/Worker/Environment.antt =====
-- internal/worker/worker.go, `loadRunEnv` and what it reads, with LoadForStack of internal/varsets and
-- internal/envvars: the variables that the container of a run gets. A variable is its name and value;
-- the container takes the last of those with one name. `decrypt` is the vault, with the context and the
-- ciphertext; what the external secret store and the settings answer are parameters.
pub mod Precedence
use crucible_iap.Base.{
  String, Bool, Option, none, some, List, [], ◌∷◌, ◌++◌, str_eq, str_append, if◌then◌else◌, ◌||◌,
}

abbrev pub Env : Type 0
Env = List (String × String)

-- a row with its decryption context
pub record Encrypted (B : Type 0) : Type 0 where
  pub name : String
  pub owner : String
  pub value_enc : B

-- the hooks of a stack
pub record Hooks : Type 0 where
  pub pre_plan : Option String
  pub post_plan : Option String
  pub pre_apply : Option String
  pub post_apply : Option String

-- a row of stack_remote_state_sources with the slug of its source
pub record RemoteState (B : Type 0) : Type 0 where
  pub source_stack_id : String
  pub slug : String
  pub token_id : String
  pub token_secret_enc : B

module _ {B : Type 0} (decrypt : String → B → Option String) where
  -- `LoadForStack` of both packages, over its rows in the order of the query; `context` is the stack
  -- itself, or the variable set of the row. One value that does not decrypt is an error of all.
  unfoldable pub load_for_stack : (String → String) → List (Encrypted B) → Option Env
  load_for_stack context [] = some []
  load_for_stack context (v ∷ rows) =
      let rest = load_for_stack context rows in
      elim (decrypt (context v.owner) v.value_enc) [
        | none ↦ none
        | some plain ↦ elim rest [ none ↦ none | some env ↦ some ((v.name, plain) ∷ env) ]
      ]

  -- `loadRemoteStateEnv`; a secret that does not decrypt skips its source. `upper_slug` is the slug in
  -- upper case with underscores for its dashes.
  unfoldable pub load_remote_state_env : (String → String) → String → List (RemoteState B) → Env
  load_remote_state_env upper_slug api_url [] = []
  load_remote_state_env upper_slug api_url (r ∷ rows) =
      let rest = load_remote_state_env upper_slug api_url rows in
      let prefix = str_append "CRUCIBLE_REMOTE_STATE_" (upper_slug r.slug) in
      elim (decrypt r.source_stack_id r.token_secret_enc) [
        | none ↦ rest
        | some secret ↦
            (
              str_append prefix "_ADDRESS",
              str_append api_url (str_append "/api/v1/state/" r.source_stack_id),
            )
            ∷ (str_append prefix "_USERNAME", r.token_id)
            ∷ (str_append prefix "_PASSWORD", secret)
            ∷ rest
      ]

-- a variable that is there and not empty
abbrev pub set_if : String → Option String → Env
set_if key none = []
set_if key (some v) = if str_eq v "" then [] else (key, v) ∷ []

-- `loadHookEnv`
unfoldable pub load_hook_env : Hooks → Env
load_hook_env h =
    set_if "CRUCIBLE_HOOK_PRE_PLAN" h.pre_plan
    ++ set_if "CRUCIBLE_HOOK_POST_PLAN" h.post_plan
    ++ set_if "CRUCIBLE_HOOK_PRE_APPLY" h.pre_apply
    ++ set_if "CRUCIBLE_HOOK_POST_APPLY" h.post_apply

-- `loadInfracostEnv`, with the key and the endpoint of the settings
unfoldable pub load_infracost_env : Option (String × String) → Env
load_infracost_env none = []
load_infracost_env (some (api_key, endpoint)) =
    set_if "INFRACOST_API_KEY" (some api_key)
    ++ set_if "INFRACOST_PRICING_API_ENDPOINT" (some endpoint)

-- `loadScanEnv`, with the tool and the threshold of the settings
unfoldable pub load_scan_env : Option (String × String) → Env
load_scan_env none = []
load_scan_env (some (tool, threshold)) =
    if str_eq tool "" || str_eq tool "none"
    then []
    else ("CRUCIBLE_SCAN_TOOL", tool) ∷ ("CRUCIBLE_SCAN_SEVERITY_THRESHOLD", threshold) ∷ []

-- the answers that `loadRunEnv` merges; an error is none
pub record Sources : Type 0 where
  pub store : Option Env
  pub variable_sets : Option Env
  pub remote_state : Env
  pub stack_vars : Option Env
  pub hooks : Option Hooks
  pub infracost : Option (String × String)
  pub scan : Option (String × String)

-- an error is only logged
abbrev pub or_nothing : Option Env → Env
or_nothing none = []
or_nothing (some env) = env

abbrev pub hooks_or_nothing : Option Hooks → Env
hooks_or_nothing none = []
hooks_or_nothing (some h) = load_hook_env h

-- `loadRunEnv`, the variables
unfoldable pub load_run_env : Sources → Env
load_run_env s =
    (((((or_nothing s.store ++ or_nothing s.variable_sets) ++ s.remote_state)
          ++ or_nothing s.stack_vars)
        ++ hooks_or_nothing s.hooks)
      ++ load_infracost_env s.infracost)
    ++ load_scan_env s.scan

-- the value that the container sees
unfoldable pub last_of : String → Env → Option String
last_of name [] = none
last_of name (v ∷ env) =
    let rest = last_of name env in
    elim rest [ some value ↦ some value | none ↦ if str_eq v.0 name then some v.1 else none ]
