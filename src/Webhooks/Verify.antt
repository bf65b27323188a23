-- ===== src/Webhooks/Verify.antt =====
-- internal/webhooks/handler.go: which forge a request comes from, and whether it may be believed.
-- `Wire` holds the library calls: json.Unmarshal into each payload, the HMAC of a body in hexadecimal
-- digits, and the decoding of Basic credentials.
pub mod Authentic
use Prim.Native.Char.{code}
use crucible_iap.Base.{
  ℕ, String, Bool, true, false, not, ◌||◌, ◌&&◌, Option, none, some, List, [], ◌∷◌, str_eq,
  str_append, ◌==◌, if◌then◌else◌, is_some,
}
use crucible_iap.Webhooks.Events.{
  Parsed, invalid, strip_prefix, trim_prefix, GhPush, GhPr, parse_github,
}
use crucible_iap.Webhooks.Gitlab.{GlPush, GlMr, parse_gitlab}
use crucible_iap.Webhooks.Forges.{
  BbChange, BbPr, AdoPush, AdoPr, parse_bitbucket, parse_azure_devops,
}

pub record Wire (B : Type 0) : Type 0 where
  pub gh_push : B → Option GhPush
  pub gh_pr : B → Option GhPr
  pub gl_push : B → Option GlPush
  pub gl_mr : B → Option GlMr
  pub bb_push : B → Option (List BbChange)
  pub bb_pr : B → Option BbPr
  pub ado_kind : B → Option String
  pub ado_push : B → Option AdoPush
  pub ado_pr : B → Option AdoPr
  pub mac : String → B → String
  pub base64 : String → Option String

-- r.Header.Get, "" where the header is missing
abbrev pub Headers : Type 0
Headers = String → String

abbrev pub has : Headers → String → Bool
has h name = not (str_eq (h name) "")

abbrev pub is_basic : Headers → Bool
is_basic h = is_some (strip_prefix "Basic " (h "Authorization"))

-- `detectForge`
unfoldable pub detect_forge : Headers → String
detect_forge h =
    if has h "X-Event-Key"
    then "bitbucket"
    else if has h "X-Gitlab-Token" || has h "X-Gitlab-Event"
    then "gitlab"
    else if has h "X-Gitea-Event" || has h "X-Gitea-Signature" || has h "X-Gitea-Delivery"
    then "gitea"
    else if has h "X-Gogs-Event" || has h "X-Gogs-Signature"
    then "gogs"
    else if has h "X-GitHub-Event" || has h "X-Hub-Signature-256"
    then "github"
    else if is_basic h
    then "azure_devops"
    else "unknown"

abbrev pub first_header : Headers → String → List String → String
first_header h default_value [] = default_value
first_header h default_value (name ∷ names) =
    let rest = first_header h default_value names in if has h name then h name else rest

-- `extractEventType`
unfoldable pub extract_event_type : Headers → String
extract_event_type h =
    first_header h "unknown"
      ("X-Event-Key" ∷ "X-GitHub-Event" ∷ "X-Gitea-Event" ∷ "X-Gogs-Event" ∷ "X-Gitlab-Event" ∷ [])

-- `extractDeliveryID`
unfoldable pub extract_delivery_id : Headers → String
extract_delivery_id h =
    first_header h "" ("X-GitHub-Delivery" ∷ "X-Gitea-Delivery" ∷ "X-Hook-UUID" ∷ [])

-- what stands after the first colon, "" where there is none
unfoldable pub after_colon : String → String
after_colon String.[] = ""
after_colon (String.◌∷◌ c s) = let rest = after_colon s in if code c == b':' then s else rest

module _ {B : Type 0} (W : Wire B) where
  -- `verifyGitHubSig`
  unfoldable pub verify_github_sig : B → String → String → Bool
  verify_github_sig body secret sig = str_eq (trim_prefix "sha256=" sig) (W.mac secret body)

  abbrev pub github_parsed : Bool → String → B → Parsed
  github_parsed true kind body = parse_github kind (W.gh_push body) (W.gh_pr body)
  github_parsed false kind body = invalid

  -- `verifyBitbucket`
  unfoldable pub verify_bitbucket : Headers → B → String → Parsed
  verify_bitbucket h body secret =
      if has h "X-Hub-Signature" && not (verify_github_sig body secret (h "X-Hub-Signature"))
      then invalid
      else parse_bitbucket (h "X-Event-Key") (W.bb_push body) (W.bb_pr body)

  basic_parsed : Option String → B → String → Parsed
  basic_parsed none body secret = invalid
  basic_parsed (some decoded) body secret =
      if str_eq (after_colon decoded) secret
      then parse_azure_devops (W.ado_kind body) (W.ado_push body) (W.ado_pr body)
      else invalid

  -- `verifyAzureDevOps`
  unfoldable pub verify_azure_devops : Headers → B → String → Parsed
  unfolding basic_parsed
  verify_azure_devops h body secret =
      basic_parsed (W.base64 (trim_prefix "Basic " (h "Authorization"))) body secret

  -- `parseAndVerify`
  unfoldable pub parse_and_verify : Headers → B → String → Parsed
  parse_and_verify h body secret =
      if has h "X-Hub-Signature-256"
      then github_parsed (verify_github_sig body secret (h "X-Hub-Signature-256"))
          (first_header h "" ("X-GitHub-Event" ∷ "X-Gitea-Event" ∷ "X-Gogs-Event" ∷ [])) body
      else if has h "X-Gitea-Signature"
      then github_parsed
          (verify_github_sig body secret (str_append "sha256=" (h "X-Gitea-Signature")))
          (h "X-Gitea-Event") body
      else if has h "X-Gogs-Signature"
      then github_parsed
          (verify_github_sig body secret (str_append "sha256=" (h "X-Gogs-Signature")))
          (h "X-Gogs-Event") body
      else if has h "X-Gitlab-Token"
      then (if str_eq (h "X-Gitlab-Token") secret
          then parse_gitlab (h "X-Gitlab-Event") (W.gl_push body) (W.gl_mr body)
          else invalid)
      else if has h "X-Event-Key"
      then verify_bitbucket h body secret
      else if is_basic h
      then verify_azure_devops h body secret
      else invalid
