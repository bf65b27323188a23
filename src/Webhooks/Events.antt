-- ===== src/Webhooks/Events.antt =====
-- internal/webhooks/handler.go: the event that a payload of GitHub, Gitea or Gogs stands for.
-- A payload is what json.Unmarshal makes of it, none where that fails.
pub mod Paths
use Prim.Native.Char.{code}
use crucible_iap.Base.{
  ℕ, String, Bool, true, false, not, ◌&&◌, ◌||◌, Option, none, some, List, [], ◌∷◌, ◌++◌, str_eq,
  ◌==◌, if◌then◌else◌, any,
}
use crucible_iap.Db.{RunType, tracked, proposed}

-- `webhookEvent`; a run type that is "" is none
pub record WebhookEvent : Type 0 where
  pub trigger : String
  pub run_type : Option RunType
  pub branch : String
  pub commit_sha : String
  pub commit_message : String
  pub pr_number : ℕ
  pub pr_url : String
  pub tag_name : String
  pub pr_closed : Bool
  pub changed_files : List String
  pub actor : String

-- the zero value
abbrev pub no_event : WebhookEvent
no_event = record {
  trigger = "";
  run_type = none;
  branch = "";
  commit_sha = "";
  commit_message = "";
  pr_number = 0;
  pr_url = "";
  tag_name = "";
  pr_closed = false;
  changed_files = [];
  actor = "";
}

-- What a parser returns: an error, no event, or an event.
pub data Parsed : Type 0 where
  invalid ignored : Parsed
  event : WebhookEvent → Parsed

unfoldable pub strip_prefix : String → String → Option String
strip_prefix String.[] s = some s
strip_prefix (String.◌∷◌ c p) String.[] = none
strip_prefix (String.◌∷◌ c p) (String.◌∷◌ d s) =
    let rest = strip_prefix p s in if code c == code d then rest else none

-- strings.TrimPrefix
unfoldable pub trim_prefix : String → String → String
unfolding strip_prefix
trim_prefix p s = elim (strip_prefix p s) [ none ↦ s | some rest ↦ rest ]

-- `firstLine`
unfoldable pub first_line : String → String
first_line String.[] = String.[]
first_line (String.◌∷◌ c s) =
    let rest = first_line s in if code c == 10 then String.[] else String.◌∷◌ c rest

-- `firstNonEmpty`
abbrev pub first_non_empty : List String → String
first_non_empty [] = ""
first_non_empty (v ∷ vals) = let rest = first_non_empty vals in if str_eq v "" then rest else v

-- the paths that one commit names
pub record Changes : Type 0 where
  pub added : List String
  pub modified : List String
  pub removed : List String

-- seen[p] = struct{}{} for the paths of a list
abbrev pub see : List String → List String → List String
see seen [] = seen
see seen (p ∷ paths) = see (if any (λ q. str_eq q p) seen then seen else seen ++ p ∷ []) paths

abbrev pub see_changes : List String → Changes → List String
see_changes seen c = see (see (see seen c.added) c.modified) c.removed

abbrev pub see_all : List String → List Changes → List String
see_all seen [] = seen
see_all seen (c ∷ commits) = see_all (see_changes seen c) commits

-- `ghPush`
pub record GhPush : Type 0 where
  pub ref : String
  pub head_id : String
  pub head_message : String
  pub head : Changes
  pub commits : List Changes
  pub sender : String

-- `ghPR`
pub record GhPr : Type 0 where
  pub action : String
  pub number : ℕ
  pub html_url : String
  pub head_ref : String
  pub head_sha : String
  pub title : String
  pub user : String
  pub sender : String

-- `ghPush.collectChanges`
unfoldable pub collect_changes : GhPush → List String
collect_changes e = see_all (see_changes [] e.head) e.commits

-- the event of a branch that was pushed, or of a tag
abbrev pub push_event : String → String → String → List String → String → WebhookEvent
push_event branch sha message files actor = record no_event {
  trigger = "push";
  run_type = some tracked;
  branch = branch;
  commit_sha = sha;
  commit_message = message;
  changed_files = files;
  actor = actor;
}

abbrev pub tag_event : String → String → WebhookEvent
tag_event tag sha = record no_event { tag_name = tag; commit_sha = sha }

abbrev pub pr_event : String → String → String → ℕ → String → String → WebhookEvent
pr_event branch sha title number url actor = record no_event {
  trigger = "pull_request";
  run_type = some proposed;
  branch = branch;
  commit_sha = sha;
  commit_message = title;
  pr_number = number;
  pr_url = url;
  actor = actor;
}

abbrev pub closed_event : ℕ → String → String → WebhookEvent
closed_event number url branch = record no_event {
  pr_closed = true;
  pr_number = number;
  pr_url = url;
  branch = branch;
}

-- a ref without the prefix of branches is a tag
abbrev pub ref_event : String → String → String → List String → String → WebhookEvent
ref_event ref sha message files actor =
    let branch = trim_prefix "refs/heads/" ref in
    if str_eq branch ref
    then tag_event (trim_prefix "refs/tags/" ref) sha
    else push_event branch sha message files actor

parse_gh_push : Option GhPush → Parsed
parse_gh_push none = invalid
parse_gh_push (some e) =
    event (ref_event e.ref e.head_id (first_line e.head_message) (collect_changes e) e.sender)

abbrev pub is_opening : String → Bool
is_opening action =
    str_eq action "opened" || str_eq action "synchronize" || str_eq action "reopened"

parse_gh_pr : Option GhPr → Parsed
parse_gh_pr none = invalid
parse_gh_pr (some e) =
    if str_eq e.action "closed"
    then event (closed_event e.number e.html_url e.head_ref)
    else if not (is_opening e.action)
    then ignored
    else event (
        pr_event e.head_ref e.head_sha e.title e.number e.html_url
          (first_non_empty (e.user ∷ e.sender ∷ [])))

-- `parseGitHub`
unfoldable pub parse_github : String → Option GhPush → Option GhPr → Parsed
unfolding parse_gh_push parse_gh_pr
parse_github kind push pr =
    if str_eq kind "push"
    then parse_gh_push push
    else if str_eq kind "pull_request"
    then parse_gh_pr pr
    else ignored
