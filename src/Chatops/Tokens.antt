-- ===== src/Chatops/Tokens.antt =====
-- Which tokens are valid, and for what.
use crucible_iap.Base.{
  ℕ, ◌+◌, ◌^◌, ◌<◌, ◌≡◌, refl, sym, ap, ◌∙◌, Bool, true, false, some, [], ◌∷◌, ◌++◌, ltb, leb, ◌==◌,
  if◌then◌else◌, any, all, arith, Bool-cases,
}
use crucible_iap.Base.Bytes.{Bytes, bytes_eq, bytes_eq_refl}
use crucible_iap.Base.Decimal.{format, is_digit, format-digits, parse_int-format}
use crucible_iap.Chatops.{
  token_ttl, split_at, message, sign, generate_token, validate_expiry, validate_parts,
  validate_token,
}

split_at-append :
    (sep : ℕ) (s t : Bytes)
    → any (λ c. c == sep) s ≡ false
    → split_at sep (s ++ sep ∷ t) ≡ some (s, t)
unfolding split_at
split_at-append sep [] t h = ground arith
split_at-append sep (c ∷ s) t h = ground (arith, split_at-append sep s t (ground arith))

digits-free :
    (sep : ℕ) (s : Bytes)
    → is_digit sep ≡ false
    → all is_digit s ≡ true
    → any (λ c. c == sep) s ≡ false
digits-free sep [] n h = refl
digits-free sep (c ∷ s) n h = ground (arith, digits-free sep s n (ground arith))

bytes_eq-same : (s t : Bytes) → bytes_eq s t ≡ true → s ≡ t
bytes_eq-same [] [] h = refl
bytes_eq-same [] (b ∷ t) h = absurd (ground arith)
bytes_eq-same (a ∷ s) [] h = absurd (ground arith)
bytes_eq-same (a ∷ s) (b ∷ t) h = ground (arith, bytes_eq-same s t (ground arith))

before_first :
    (sep : ℕ) (s s2 t t2 : Bytes)
    → any (λ c. c == sep) s ≡ false
    → any (λ c. c == sep) s2 ≡ false
    → s ++ sep ∷ t ≡ s2 ++ sep ∷ t2
    → (s ≡ s2) × (t ≡ t2)
before_first sep s s2 t t2 n n2 h =
    ground
      (arith, sym (split_at-append sep s t n) ∙ ap (split_at sep) h ∙ split_at-append sep s2 t2 n2)

accepted : (past : Bool) {b : Bool} → (if past then false else b) ≡ true → b ≡ true
accepted past h = ground (arith, Bool-cases past)

module _ (mac : Bytes → Bytes → Bytes) where
  -- what the check of a generated token comes to
  generated :
      (now later : ℕ) (run action run2 action2 key : Bytes)
      → now + token_ttl < 2 ^ 63
      → validate_token mac later (generate_token mac now run action key) run2 action2 key ≡ (
          if ltb (now + token_ttl) later
          then false
          else bytes_eq
              (sign mac run action (now + token_ttl) key)
              (sign mac run2 action2 (now + token_ttl) key))
  unfolding validate_token generate_token validate_parts validate_expiry
  generated now later run action run2 action2 key l =
      rw
        (
          split_at-append b'.' (format (now + token_ttl))
              (sign mac run action (now + token_ttl) key)
              (digits-free b'.' (format (now + token_ttl)) refl (format-digits (now + token_ttl))),
          validate_token,
        )
        (rw (parse_int-format (now + token_ttl) l, validate_parts) refl)

  -- A token that is generated is valid for its run and action for 24 hours, to the second, and not
  -- after.
  pub validate_token-generate_token :
      (now later : ℕ) (run action key : Bytes)
      → now + token_ttl < 2 ^ 63
      → validate_token mac later (generate_token mac now run action key) run action key
        ≡ leb later (now + token_ttl)
  validate_token-generate_token now later run action key l =
      generated now later run action run action key l
      ∙ ground (arith, bytes_eq_refl (sign mac run action (now + token_ttl) key))

  -- Under a key whose codes for the two messages collide only if the messages are equal, a token that
  -- was generated for a run and an action is valid for no other run and no other action, where neither
  -- name has a colon.
  pub validate_token-bound :
      (now later : ℕ) (run action run2 action2 key : Bytes)
      → now + token_ttl < 2 ^ 63
      → any (λ c. c == b':') run ≡ false
      → any (λ c. c == b':') run2 ≡ false
      → any (λ c. c == b':') action ≡ false
      → any (λ c. c == b':') action2 ≡ false
      → (mac key (message run action (now + token_ttl))
            ≡ mac key (message run2 action2 (now + token_ttl))
          → message run action (now + token_ttl) ≡ message run2 action2 (now + token_ttl))
      → validate_token mac later (generate_token mac now run action key) run2 action2 key ≡ true
      → (run ≡ run2) × (action ≡ action2)
  validate_token-bound now later run action run2 action2 key l r r2 a a2 free v =
      let e = now + token_ttl in
      let same : mac key (message run action e) ≡ mac key (message run2 action2 e) =
        bytes_eq-same (sign mac run action e key) (sign mac run2 action2 e key)
          (accepted (ltb e later) (sym (generated now later run action run2 action2 key l) ∙ v)) in
      let (x, y) =
        before_first b':' run run2 (action ++ b':' ∷ format e) (action2 ++ b':' ∷ format e) r r2
          (free same) in
      (x, (before_first b':' action action2 (format e) (format e) a a2 y).0)
