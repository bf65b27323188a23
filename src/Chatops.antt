-- ===== src/Chatops.antt =====
-- internal/chatops/token.go: the signed tokens of the links in a notification. `mac` is HMAC-SHA256 of
-- a key and a message, in hexadecimal digits. Times are in seconds.
pub mod Tokens
use crucible_iap.Base.{
  ℕ, ◌+◌, ◌*◌, Bool, true, false, Option, none, some, List, [], ◌∷◌, ◌++◌, ltb, ◌==◌, if◌then◌else◌,
}
use crucible_iap.Base.Bytes.{Bytes, bytes_eq}
use crucible_iap.Base.Decimal.{format, parse_int}
use crucible_iap.Base.Int.{ℤ, pos, negsuc}

abbrev pub token_ttl : ℕ
token_ttl = 24 * 60 * 60

-- strings.SplitN(s, sep, 2) for a byte; none where it has one part
unfoldable pub split_at : ℕ → Bytes → Option (Bytes × Bytes)
split_at sep [] = none
split_at sep (c ∷ s) =
    let rest = split_at sep s in
    if c == sep then some ([], s) else (elim rest [ none ↦ none | some (a, b) ↦ some (c ∷ a, b) ])

abbrev pub message : Bytes → Bytes → ℕ → Bytes
message run action expiry = run ++ b':' ∷ (action ++ b':' ∷ format expiry)

module _ (mac : Bytes → Bytes → Bytes) where
  -- `sign`
  abbrev pub sign : Bytes → Bytes → ℕ → Bytes → Bytes
  sign run action expiry key = mac key (message run action expiry)

  -- `GenerateToken`, at a time
  unfoldable pub generate_token : ℕ → Bytes → Bytes → Bytes → Bytes
  generate_token now run action key =
      format (now + token_ttl) ++ b'.' ∷ sign run action (now + token_ttl) key

  -- a time is not negative, so an expiry below 0 is past
  validate_expiry : ℕ → Option ℤ → Bytes → Bytes → Bytes → Bytes → Bool
  validate_expiry now none signature run action key = false
  validate_expiry now (some (negsuc n)) signature run action key = false
  validate_expiry now (some (pos expiry)) signature run action key =
      if ltb expiry now then false else bytes_eq signature (sign run action expiry key)

  validate_parts : ℕ → Option (Bytes × Bytes) → Bytes → Bytes → Bytes → Bool
  unfolding validate_expiry
  validate_parts now none run action key = false
  validate_parts now (some (expiry, signature)) run action key =
      validate_expiry now (parse_int expiry) signature run action key

  -- `ValidateToken`, at a time
  unfoldable pub validate_token : ℕ → Bytes → Bytes → Bytes → Bytes → Bool
  unfolding validate_parts
  validate_token now token run action key = validate_parts now (split_at b'.' token) run action key
