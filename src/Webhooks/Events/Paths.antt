-- ===== src/Webhooks/Events/Paths.antt =====
-- The paths that the path filter of a stack is asked about.
use crucible_iap.Base.{
  String, ◌≡◌, refl, ap, ◌∙◌, inl, inr, Bool, false, ◌||◌, List, [], ◌∷◌, ◌++◌, str_eq, eq_iff,
  arith, any, any-append, Bool-cases,
}
use crucible_iap.Webhooks.Events.{Changes, see, see_changes, see_all, GhPush, collect_changes}

abbrev pub member : String → List String → Bool
member p = any (λ q. str_eq q p)

-- a commit adds, modifies or removes the path
abbrev pub touches : String → Changes → Bool
touches p c = member p c.added || member p c.modified || member p c.removed

-- no path twice
abbrev pub Once : List String → Type 0
Once [] = Unit
Once (p ∷ paths) = (member p paths ≡ false) × Once paths

see-member :
    (p : String) (seen paths : List String)
    → member p (see seen paths) ≡ (member p seen || member p paths)
see-member p seen [] = ground arith
see-member p seen (q ∷ paths) = elim (Bool-cases (any (λ r. str_eq r q) seen)) [
  | inl e ↦ elim (Bool-cases (str_eq q p)) [
    | inl s ↦
        rw e (see-member p seen paths ∙ ground (arith, ap (λ x. member x seen) ((eq_iff q p).0 s)))
    | inr s ↦ rw e (see-member p seen paths ∙ ground arith)
  ]
  | inr e ↦ rw e (
      see-member p (seen ++ q ∷ []) paths
      ∙ ground (arith, any-append (λ r. str_eq r p) seen (q ∷ [])))
]

Once-snoc :
    (seen : List String) (q : String) → Once seen → member q seen ≡ false → Once (seen ++ q ∷ [])
Once-snoc [] q o n = (refl, tt)
Once-snoc (p ∷ seen) q (o, os) n = (
  ground (arith, any-append (λ r. str_eq r p) seen (q ∷ []), eq_iff p q, eq_iff q p),
  Once-snoc seen q os (ground arith),
)

see-Once : (seen paths : List String) → Once seen → Once (see seen paths)
see-Once seen [] o = o
see-Once seen (q ∷ paths) o = elim (Bool-cases (any (λ r. str_eq r q) seen)) [
  | inl e ↦ rw e (see-Once seen paths o)
  | inr e ↦ rw e (see-Once (seen ++ q ∷ []) paths (Once-snoc seen q o e))
]

see_changes_lem :
    (p : String) (seen : List String) (c : Changes)
    → member p (see_changes seen c) ≡ (member p seen || touches p c)
see_changes_lem p seen c = ground (
  arith,
  see-member p (see (see seen c.added) c.modified) c.removed,
  see-member p (see seen c.added) c.modified,
  see-member p seen c.added,
)

see_all_lem :
    (p : String) (seen : List String) (commits : List Changes)
    → member p (see_all seen commits) ≡ (member p seen || any (touches p) commits)
see_all_lem p seen [] = ground arith
see_all_lem p seen (c ∷ commits) =
    ground (arith, see_all_lem p (see_changes seen c) commits, see_changes_lem p seen c)

see_changes-Once : (seen : List String) (c : Changes) → Once seen → Once (see_changes seen c)
see_changes-Once seen c o = see-Once _ c.removed (see-Once _ c.modified (see-Once seen c.added o))

see_all-Once :
    (seen : List String) (commits : List Changes) → Once seen → Once (see_all seen commits)
see_all-Once seen [] o = o
see_all-Once seen (c ∷ commits) o =
    see_all-Once (see_changes seen c) commits (see_changes-Once seen c o)

-- The changed files of a push are the paths that its head commit or one of its commits adds,
-- modifies or removes, each once.
pub collect_changes-member :
    (e : GhPush)
    → ((p : String)
        → member p (collect_changes e) ≡ (touches p e.head || any (touches p) e.commits))
      × Once (collect_changes e)
unfolding collect_changes
collect_changes-member e = (
  λ p.
      see_all_lem p (see_changes [] e.head) e.commits
      ∙ ap (λ b. b || any (touches p) e.commits) (see_changes_lem p [] e.head),
  see_all-Once (see_changes [] e.head) e.commits (see_changes-Once [] e.head tt),
)
