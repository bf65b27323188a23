-- ===== src/Worker/Environment/Precedence.antt =====
-- Which of the sources of a variable wins.
use crucible_iap.Base.{
  String, ◌≡◌, refl, inl, inr, not, Option, none, some, List, [], ◌∷◌, any, is_some, arith,
  Option-cases,
}
use crucible_iap.Worker.Environment.{Encrypted, load_for_stack}

-- the first of two answers, the second where there is none
abbrev pub or_else : Option String → Option String → Option String
or_else none b = b
or_else (some a) b = some a

module _ {B : Type 0} (decrypt : String → B → Option String) where
  -- The variables of a stack or of its sets load all or not at all: they load exactly when every value
  -- decrypts.
  pub load_for_stack-total_iff :
      (context : String → String) (rows : List (Encrypted B))
      → is_some (load_for_stack decrypt context rows)
        ≡ not (any (λ v. not (is_some (decrypt (context v.owner) v.value_enc))) rows)
  unfolding load_for_stack
  load_for_stack-total_iff context [] = refl
  load_for_stack-total_iff context (v ∷ rows) =
      elim (Option-cases (decrypt (context v.owner) v.value_enc)) [
        | inl k ↦ ground (arith, k)
        | inr (p, k) ↦ ground (
          arith,
          k,
          load_for_stack-total_iff context rows,
          Option-cases (load_for_stack decrypt context rows),
        )
      ]
