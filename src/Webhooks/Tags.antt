-- ===== src/Webhooks/Tags.antt =====
-- internal/webhooks/handler.go, `handleTagPush`: a tag of a stack that is a module is published.
use Prim.Native.Char.{code}
use crucible_iap.Base.{
  ℕ, String, Bool, true, false, not, ◌&&◌, ◌||◌, Option, none, some, [], ◌∷◌, ◌++◌, str_eq, leb,
  ◌==◌, if◌then◌else◌,
}
use crucible_iap.Db.Env.{Env, Result, ok}
use crucible_iap.Webhooks.Events.{WebhookEvent, trim_prefix}
use crucible_iap.Webhooks.Deliveries.{
  Hook, ModulePublishArgs, Arrival, Inbox, record_delivery, skip,
}

abbrev is_digit : ℕ → Bool
is_digit c = leb b'0' c && leb c b'9'

-- what `[0-9]*` leaves
unfoldable pub more_digits : String → String
more_digits String.[] = String.[]
more_digits (String.◌∷◌ c s) =
    let rest = more_digits s in if is_digit (code c) then rest else String.◌∷◌ c s

-- what `[0-9]+` leaves
unfoldable pub digits : String → Option String
unfolding more_digits
digits String.[] = none
digits (String.◌∷◌ c s) = if is_digit (code c) then some (more_digits s) else none

-- what a dot leaves
abbrev pub dot : String → Option String
dot String.[] = none
dot (String.◌∷◌ c s) = if code c == b'.' then some s else none

abbrev pub then_ : Option String → (String → Option String) → Option String
then_ none next = none
then_ (some s) next = next s

-- `reTagSemver`
unfoldable pub is_semver : String → Bool
unfolding digits
is_semver s = elim (then_ (then_ (then_ (then_ (digits s) dot) digits) dot) digits) [
  | none ↦ false
  | some rest ↦ true
]

-- the name of a module, none where one of its columns is missing or empty
abbrev pub module_of : Hook → Option (String × String × String)
module_of h = elim h.module_namespace [
  | none ↦ none
  | some ns ↦ elim h.module_name [
    | none ↦ none
    | some name ↦ elim h.module_provider [
      | none ↦ none
      | some provider ↦
          if str_eq ns "" || str_eq name "" || str_eq provider ""
          then none
          else some (ns, name, provider)
    ]
  ]
]

module _ {C B : Type 0} where
  abbrev pub publish : ModulePublishArgs → Inbox C B → Inbox C B
  publish args st = record st { publishes = st.publishes ++ args ∷ [] }

  -- `handleTagPush` for a stack with its module columns, where the queue takes the job
  unfoldable pub publish_tag :
      Env
      → String
      → Arrival B
      → WebhookEvent
      → Option (String × String × String)
      → Inbox C B
      → Result (Unit {0}) × Inbox C B
  publish_tag env stack_id a e none st = skip env stack_id a "no_module_config" st
  publish_tag env stack_id a e (some (ns, name, provider)) st =
      let version = trim_prefix "v" e.tag_name in
      if not (is_semver version) then skip env stack_id a "tag_not_semver" st else (
        ok tt,
        record_delivery env stack_id a "triggered" "" none (
            publish
              (record {
                stack_id = stack_id;
                tag_name = e.tag_name;
                commit_sha = e.commit_sha;
                namespace = ns;
                name = name;
                provider = provider;
                version = version;
              })
              st),
      )

  -- `handleTagPush`
  unfoldable pub handle_tag_push :
      Env → String → Arrival B → WebhookEvent → Hook → Inbox C B → Result (Unit {0}) × Inbox C B
  unfolding publish_tag
  handle_tag_push env stack_id a e h st = publish_tag env stack_id a e (module_of h) st
