-- ===== src/Webhooks/Verify/Authentic.antt =====
-- Which requests pass the check of a webhook.
use crucible_iap.Base.{
  String, ◌≡◌, ◌≢◌, ◌⊎◌, refl, inl, inr, Bool, true, false, ◌||◌, str_eq, str_append, arith,
  if◌then◌else◌, Bool-cases, Option-cases,
}
use crucible_iap.Base.Map.{holds}
use crucible_iap.Webhooks.Events.{Parsed, invalid, trim_prefix}
use crucible_iap.Webhooks.Gitlab.{parse_gitlab}
use crucible_iap.Webhooks.Verify.{
  Wire, Headers, has, after_colon, verify_github_sig, github_parsed, is_basic, verify_bitbucket,
  basic_parsed, verify_azure_devops, parse_and_verify,
}

module _ {B : Type 0} (W : Wire B) where
  -- A request that proves that its sender knows the secret: by the HMAC of the body in one of the
  -- headers for it, by the token of GitLab, or by the password of Azure DevOps.
  abbrev pub is_genuine : Headers → B → String → Bool
  is_genuine h body secret =
      verify_github_sig W body secret (h "X-Hub-Signature-256")
      || verify_github_sig W body secret (str_append "sha256=" (h "X-Gitea-Signature"))
      || verify_github_sig W body secret (str_append "sha256=" (h "X-Gogs-Signature"))
      || verify_github_sig W body secret (h "X-Hub-Signature")
      || str_eq (h "X-Gitlab-Token") secret
      || holds (λ decoded. str_eq (after_colon decoded) secret)
          (W.base64 (trim_prefix "Basic " (h "Authorization")))

  github_parsed-true :
      (ok : Bool) (kind : String) (body : B) → github_parsed W ok kind body ≢ invalid → ok ≡ true
  github_parsed-true true kind body h = refl
  github_parsed-true false kind body h = absurd (h refl)

  verify_azure_devops-true :
      (h : Headers) (body : B) (secret : String)
      → verify_azure_devops W h body secret ≢ invalid
      → holds
          (λ decoded. str_eq (after_colon decoded) secret)
          (W.base64 (trim_prefix "Basic " (h "Authorization")))
        ≡ true
  unfolding verify_azure_devops basic_parsed
  verify_azure_devops-true h body secret n =
      elim (Option-cases (W.base64 (trim_prefix "Basic " (h "Authorization")))) [
        | inl e ↦ absurd (n (rw (e, verify_azure_devops) refl))
        | inr (d, e) ↦ elim (Bool-cases (str_eq (after_colon d) secret)) [
          | inl k ↦ ground (arith, e, k)
          | inr k ↦ absurd (n (rw (e, verify_azure_devops) (rw (k, basic_parsed) refl)))
        ]
      ]

  -- the requests without an HMAC of GitHub, Gitea or Gogs
  abbrev plain : Headers → B → String → Parsed
  plain h body secret =
      if has h "X-Gitlab-Token"
      then (if str_eq (h "X-Gitlab-Token") secret
          then parse_gitlab (h "X-Gitlab-Event") (W.gl_push body) (W.gl_mr body)
          else invalid)
      else if has h "X-Event-Key"
      then verify_bitbucket W h body secret
      else if is_basic h
      then verify_azure_devops W h body secret
      else invalid

  plain_tokens :
      (h : Headers) (body : B) (secret : String)
      → plain h body secret ≢ invalid
      → (is_genuine h body secret ≡ true)
        ⊎ ((has h "X-Event-Key" ≡ true) × (has h "X-Hub-Signature" ≡ false))
  unfolding verify_bitbucket
  plain_tokens h body secret n = elim (Bool-cases (has h "X-Gitlab-Token")) [
    | inl d ↦ elim (Bool-cases (str_eq (h "X-Gitlab-Token") secret)) [
      | inl t ↦ inl (ground arith)
      | inr t ↦ absurd (n (rw d (rw t refl)))
    ]
    | inr d ↦ elim (Bool-cases (has h "X-Event-Key")) [
      | inl e ↦ elim (Bool-cases (has h "X-Hub-Signature")) [
        | inr s ↦ inr (e, s)
        | inl s ↦ elim (Bool-cases (verify_github_sig W body secret (h "X-Hub-Signature"))) [
          | inl v ↦ inl (ground arith)
          | inr v ↦ absurd (n (rw (d, e) (rw (s, verify_bitbucket) (rw v refl))))
        ]
      ]
      | inr e ↦ elim (Bool-cases (is_basic h)) [
        | inl b ↦
            let ok = verify_azure_devops-true h body secret (λ q. n (rw (d, e) (rw b q))) in
            inl (ground arith)
        | inr b ↦ absurd (n (rw (d, e) (rw b refl)))
      ]
    ]
  ]

  -- A request that is not turned away proves that its sender knows the secret of the stack, or it
  -- has the header X-Event-Key of Bitbucket and no signature.
  pub parse_and_verify-is_genuine :
      (h : Headers) (body : B) (secret : String)
      → parse_and_verify W h body secret ≢ invalid
      → (is_genuine h body secret ≡ true)
        ⊎ ((has h "X-Event-Key" ≡ true) × (has h "X-Hub-Signature" ≡ false))
  unfolding parse_and_verify verify_bitbucket
  parse_and_verify-is_genuine h body secret n = elim (Bool-cases (has h "X-Hub-Signature-256")) [
    | inl a ↦
        let ok = github_parsed-true _ _ body (λ e. n (rw (a, parse_and_verify) e)) in
        inl (ground arith)
    | inr a ↦ elim (Bool-cases (has h "X-Gitea-Signature")) [
      | inl b ↦
          let ok = github_parsed-true _ _ body (λ e. n (rw (a, parse_and_verify) (rw b e))) in
          inl (ground arith)
      | inr b ↦ elim (Bool-cases (has h "X-Gogs-Signature")) [
        | inl c ↦
            let ok =
              github_parsed-true _ _ body (λ e. n (rw (a, parse_and_verify) (rw (b, c) e))) in
            inl (ground arith)
        | inr c ↦ plain_tokens h body secret (λ e. n (rw (a, parse_and_verify) (rw (b, c) e)))
      ]
    ]
  ]
