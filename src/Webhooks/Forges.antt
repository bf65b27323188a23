-- ===== src/Webhooks/Forges.antt =====
-- internal/webhooks/forge_bitbucket.go and forge_azure_devops.go: the event that a payload of
-- Bitbucket or Azure DevOps stands for.
use crucible_iap.Base.{
  ℕ, String, ◌||◌, Option, none, some, List, [], ◌∷◌, str_eq, if◌then◌else◌, is_some,
}
use crucible_iap.Webhooks.Events.{
  Parsed, invalid, ignored, event, strip_prefix, trim_prefix, first_line, push_event, tag_event,
  pr_event, closed_event,
}

pub record BbChange : Type 0 where
  pub type : String
  pub name : String
  pub hash : String
  pub message : String

-- `bbPR`
pub record BbPr : Type 0 where
  pub id : ℕ
  pub title : String
  pub branch : String
  pub hash : String
  pub href : String

-- the first change of a push; a deletion has no new name
abbrev pub bb_change : List BbChange → Parsed
bb_change [] = ignored
bb_change (ch ∷ rest) =
    if str_eq ch.name ""
    then ignored
    else if str_eq ch.type "tag"
    then event (tag_event ch.name ch.hash)
    else event (push_event ch.name ch.hash (first_line ch.message) [] "")

parse_bb_push : Option (List BbChange) → Parsed
parse_bb_push none = invalid
parse_bb_push (some changes) = bb_change changes

parse_bb_open : Option BbPr → Parsed
parse_bb_open none = invalid
parse_bb_open (some e) = event (pr_event e.branch e.hash e.title e.id e.href "")

parse_bb_closed : Option BbPr → Parsed
parse_bb_closed none = invalid
parse_bb_closed (some e) = event (closed_event e.id e.href e.branch)

-- `parseBitbucket`
unfoldable pub parse_bitbucket : String → Option (List BbChange) → Option BbPr → Parsed
unfolding parse_bb_push parse_bb_open parse_bb_closed
parse_bitbucket key push pr =
    if str_eq key "repo:push"
    then parse_bb_push push
    else if str_eq key "pullrequest:created" || str_eq key "pullrequest:updated"
    then parse_bb_open pr
    else if str_eq key "pullrequest:fulfilled" || str_eq key "pullrequest:rejected"
    then parse_bb_closed pr
    else ignored

pub record AdoRef : Type 0 where
  pub name : String
  pub new_object_id : String

-- `adoPush`, with the comments of its commits
pub record AdoPush : Type 0 where
  pub ref_updates : List AdoRef
  pub comments : List String

-- `adoPR`
pub record AdoPr : Type 0 where
  pub id : ℕ
  pub title : String
  pub source_ref_name : String
  pub commit_id : String
  pub href : String

abbrev pub first_comment : List String → String
first_comment [] = ""
first_comment (c ∷ rest) = first_line c

abbrev pub ado_ref : List AdoRef → List String → Parsed
ado_ref [] comments = ignored
ado_ref (r ∷ rest) comments =
    if is_some (strip_prefix "refs/tags/" r.name)
    then event (tag_event (trim_prefix "refs/tags/" r.name) r.new_object_id)
    else event (
        push_event (trim_prefix "refs/heads/" r.name) r.new_object_id (first_comment comments) []
          "")

parse_ado_push : Option AdoPush → Parsed
parse_ado_push none = invalid
parse_ado_push (some e) = ado_ref e.ref_updates e.comments

parse_ado_open : Option AdoPr → Parsed
parse_ado_open none = invalid
parse_ado_open (some e) =
    event
      (pr_event (trim_prefix "refs/heads/" e.source_ref_name) e.commit_id e.title e.id e.href "")

parse_ado_closed : Option AdoPr → Parsed
parse_ado_closed none = invalid
parse_ado_closed (some e) =
    event (closed_event e.id e.href (trim_prefix "refs/heads/" e.source_ref_name))

-- `parseAzureDevOps`, with the event type of the envelope, none where it does not decode
unfoldable pub parse_azure_devops : Option String → Option AdoPush → Option AdoPr → Parsed
unfolding parse_ado_push parse_ado_open parse_ado_closed
parse_azure_devops none push pr = invalid
parse_azure_devops (some kind) push pr =
    if str_eq kind "git.push"
    then parse_ado_push push
    else if str_eq kind "git.pullrequest.created" || str_eq kind "git.pullrequest.updated"
    then parse_ado_open pr
    else if str_eq kind "git.pullrequest.merged" || str_eq kind "git.pullrequest.declined"
    then parse_ado_closed pr
    else ignored
