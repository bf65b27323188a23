-- ===== src/Webhooks/Gitlab.antt =====
-- internal/webhooks/handler.go: the event that a payload of GitLab stands for.
use crucible_iap.Base.{
  ℕ, String, not, ◌||◌, Option, none, some, List, [], ◌∷◌, str_eq, if◌then◌else◌,
}
use crucible_iap.Webhooks.Events.{
  Parsed, invalid, ignored, event, Changes, see_all, first_line, pr_event, closed_event, ref_event,
}

pub record GlCommit : Type 0 where
  pub id : String
  pub message : String
  pub changes : Changes

-- `glPush`
pub record GlPush : Type 0 where
  pub ref : String
  pub commits : List GlCommit
  pub user_username : String

-- `glMR`
pub record GlMr : Type 0 where
  pub iid : ℕ
  pub action : String
  pub source_branch : String
  pub url : String
  pub last_commit_id : String
  pub title : String
  pub username : String

abbrev pub gl_changes : List GlCommit → List Changes
gl_changes [] = []
gl_changes (c ∷ commits) = c.changes ∷ gl_changes commits

-- `glPush.collectChanges`
unfoldable pub collect_gl_changes : GlPush → List String
collect_gl_changes e = see_all [] (gl_changes e.commits)

-- the ID and the first line of the last commit
abbrev pub last_commit : List GlCommit → String × String
last_commit [] = ("", "")
last_commit (c ∷ []) = (c.id, first_line c.message)
last_commit (c ∷ d ∷ rest) = last_commit (d ∷ rest)

parse_gl_push : Option GlPush → Parsed
parse_gl_push none = invalid
parse_gl_push (some e) = event (
    ref_event e.ref (last_commit e.commits).0 (last_commit e.commits).1 (collect_gl_changes e)
      e.user_username)

parse_gl_mr : Option GlMr → Parsed
parse_gl_mr none = invalid
parse_gl_mr (some e) =
    if str_eq e.action "close" || str_eq e.action "merge"
    then event (closed_event e.iid e.url e.source_branch)
    else if not (str_eq e.action "open" || str_eq e.action "reopen" || str_eq e.action "update")
    then ignored
    else event (pr_event e.source_branch e.last_commit_id e.title e.iid e.url e.username)

-- `parseGitLab`
unfoldable pub parse_gitlab : String → Option GlPush → Option GlMr → Parsed
unfolding parse_gl_push parse_gl_mr
parse_gitlab kind push mr =
    if str_eq kind "Push Hook"
    then parse_gl_push push
    else if str_eq kind "Merge Request Hook"
    then parse_gl_mr mr
    else ignored
