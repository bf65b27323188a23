-- ===== src/State/Exclusive.antt =====
-- internal/state/handler.go: what the lock of a stack keeps out. Requests are served one after the
-- other.
use crucible_iap.Base.{
  String, ◌≡◌, refl, ap, ◌∙◌, inl, inr, Bool, true, false, not, ◌&&◌, ◌||◌, Option, none, some,
  List, [], ◌∷◌, ◌++◌, str_eq, eq_iff, arith, find?-passes, find?, any, keep, Bool-cases,
  Option-cases,
}
use crucible_iap.Base.Map.{lookup, put, lookup-put}
use crucible_iap.Db.Env.{Env, Caller}
use crucible_iap.State.{
  Lock, Store, Document, LockInfo, of_stack, find_lock, get, lock, held_by, release, unlock,
  force_unlock, update, delete, assert_lock_holder, stack_in_org, same_serial, record_snapshot,
}

-- a request to the backend, or to the lock of a stack
pub data Request (B : Type 0) : Type 0 where
  acquire : String → Option LockInfo → Request B
  free : String → Option LockInfo → Request B
  force : Caller → String → Request B
  write : String → String → B → Request B
  purge : String → Request B

abbrev pub names : String → Option LockInfo → Bool
names id none = false
names id (some info) = str_eq info.id id

-- The requests that neither free the lock `id` of a stack, nor write under its ID or no ID, nor
-- purge the state.
abbrev pub is_foreign : {B : Type 0} → String → String → Request B → Bool
is_foreign stack id (acquire s info) = true
is_foreign stack id (free s info) = not (str_eq s stack) || not (names id info)
is_foreign stack id (force c s) = not (str_eq s stack)
is_foreign stack id (write s i body) = not (str_eq s stack) || not (str_eq i "" || str_eq i id)
is_foreign stack id (purge s) = not (str_eq s stack)

module _ {C B X : Type 0} (decode : B → Option (Document X)) where
  unfoldable pub serve : Env → Request B → Store C B → Store C B
  serve env (acquire s info) st = (lock s info st).1
  serve env (free s info) st = (unlock s info st).1
  serve env (force c s) st = (force_unlock c s st).1
  serve env (write s i body) st = (update decode env s i body st).1
  serve env (purge s) st = (delete s st).1

  unfoldable pub serve_all : Env → List (Request B) → Store C B → Store C B
  serve_all env [] st = st
  serve_all env (q ∷ qs) st = serve_all env qs (serve env q st)

abbrev pub all_foreign : {B : Type 0} → String → String → List (Request B) → Bool
all_foreign stack id [] = true
all_foreign stack id (q ∷ qs) = is_foreign stack id q && all_foreign stack id qs

module _ {ℓ} {A : Type ℓ} where
  find?-append :
      (p : A → Bool) (xs ys : List A) (x : A) → find? p xs ≡ some x → find? p (xs ++ ys) ≡ some x
  find?-append p [] ys x h = ground arith
  find?-append p (z ∷ xs) ys x h = ground (arith, find?-append p xs ys x)

  find?-keep :
      (p q : A → Bool) (xs : List A) (x : A)
      → find? p xs ≡ some x
      → q x ≡ true
      → find? p (keep q xs) ≡ some x
  find?-keep p q [] x h k = ground arith
  find?-keep p q (z ∷ xs) x h k = ground (arith, find?-keep p q xs x)

  lookup-keep :
      (k s : String) (m : List (String × A))
      → str_eq s k ≡ false
      → lookup k (keep (λ e. not (str_eq e.0 s)) m) ≡ lookup k m
  lookup-keep k s [] h = refl
  lookup-keep k s (e ∷ m) h =
      ground (arith, lookup-keep k s m, eq_iff e.0 s, eq_iff e.0 k, eq_iff s k)

module _ {C B : Type 0} where
  -- A lock of a stack, and the state that it guards.
  abbrev pub Held : String → Lock → Option B → Store C B → Type 0
  Held stack l body st = (find_lock stack st ≡ some l) × (get stack st ≡ body)

  lock-Held :
      (stack s : String) (l : Lock) (body : Option B) (info : Option LockInfo) (st : Store C B)
      → Held stack l body st
      → Held stack l body (lock s info st).1
  unfolding lock get
  lock-Held stack s l body none st h = h
  lock-Held stack s l body (some info) st (h, k) = elim (Bool-cases (any (of_stack s) st.locks)) [
    | inl e ↦ rw e (h, k)
    | inr e ↦ rw e (
      find?-append (of_stack stack) st.locks
          ((record { stack_id = s; lock_id = info.id; operation = info.operation }) ∷ []) l h,
      k,
    )
  ]

  unlock-Held :
      (stack s : String) (l : Lock) (body : Option B) (info : Option LockInfo) (st : Store C B)
      → (not (str_eq s stack) || not (names l.lock_id info)) ≡ true
      → Held stack l body st
      → Held stack l body (unlock s info st).1
  unfolding unlock get release
  unlock-Held stack s l body none st f h = h
  unlock-Held stack s l body (some info) st f (h, k) =
      let kept : not (held_by s info.id l) ≡ true = ground (
        arith,
        find?-passes (of_stack stack) st.locks h,
        eq_iff l.stack_id s,
        eq_iff l.stack_id stack,
        eq_iff s stack,
        eq_iff l.lock_id info.id,
        eq_iff info.id l.lock_id,
      ) in
      elim (Bool-cases (str_eq info.id "")) [
        | inl e ↦ rw e (h, k)
        | inr e ↦ elim (Bool-cases (any (held_by s info.id) st.locks)) [
          | inl a ↦
              rw (e, a)
                (find?-keep (of_stack stack) (λ x. not (held_by s info.id x)) st.locks l h kept, k)
          | inr a ↦ rw (e, a) (h, k)
        ]
      ]

  force-Held :
      (stack s : String) (l : Lock) (body : Option B) (c : Caller) (st : Store C B)
      → not (str_eq s stack) ≡ true
      → Held stack l body st
      → Held stack l body (force_unlock c s st).1
  unfolding force_unlock get
  force-Held stack s l body c st f (h, k) =
      let kept : not (of_stack s l) ≡ true = ground (
        arith,
        find?-passes (of_stack stack) st.locks h,
        eq_iff l.stack_id s,
        eq_iff l.stack_id stack,
        eq_iff s stack,
      ) in
      elim (Bool-cases (stack_in_org s c.org_id st)) [
        | inl e ↦ elim (Option-cases (find_lock s st)) [
          | inl n ↦ rw (e, n) (h, k)
          | inr (x, n) ↦
              rw (e, n) (find?-keep (of_stack stack) (λ x. not (of_stack s x)) st.locks l h kept, k)
        ]
        | inr e ↦ rw e (h, k)
      ]

module _ {C B X : Type 0} (decode : B → Option (Document X)) where
  -- the record of a version leaves the locks and the states alone
  record_snapshot_lem :
      (env : Env) (s : String) (new : B) (doc : Option (Document X)) (st : Store C B)
      → ((record_snapshot decode env s new doc st).locks ≡ st.locks)
        × ((record_snapshot decode env s new doc st).objects ≡ st.objects)
  unfolding record_snapshot
  record_snapshot_lem env s new none st = (refl, refl)
  record_snapshot_lem env s new (some doc) st =
      elim (Bool-cases (any (same_serial s doc.serial) st.versions)) [
        | inl e ↦ rw e (refl, refl)
        | inr e ↦ rw e (refl, refl)
      ]

  -- a write under another ID is refused
  assert_lock_holder-refuses :
      (stack i : String) (l : Lock) (st : Store C B)
      → find_lock stack st ≡ some l
      → not (str_eq i "" || str_eq i l.lock_id) ≡ true
      → assert_lock_holder stack i st ≡ false
  unfolding assert_lock_holder
  assert_lock_holder-refuses stack i l st h f =
      rw (h, assert_lock_holder) (ground (arith, eq_iff l.lock_id i, eq_iff i l.lock_id))

  assert_lock_holder-empty :
      (stack : String) (st : Store C B) → assert_lock_holder stack "" st ≡ true
  unfolding assert_lock_holder
  assert_lock_holder-empty stack st =
      ground (arith, Option-cases (find_lock stack st), eq_iff "" "")

  update-Held :
      (env : Env) (stack s i : String) (l : Lock) (body : Option B) (new : B) (st : Store C B)
      → (not (str_eq s stack) || not (str_eq i "" || str_eq i l.lock_id)) ≡ true
      → Held stack l body st
      → Held stack l body (update decode env s i new st).1
  unfolding update get assert_lock_holder
  update-Held env stack s i l body new st f (h, k) = elim (Bool-cases (assert_lock_holder s i st)) [
    | inr e ↦ rw e (h, k)
    | inl e ↦ elim (Bool-cases (str_eq s stack)) [
      | inl q ↦
          let p = (eq_iff s stack).0 q in
          let refused =
            assert_lock_holder-refuses s i l st (ap (λ x. find_lock x st) p ∙ h) (ground arith) in
          absurd (ground arith)
      | inr q ↦
          let same =
            record_snapshot_lem env s new (decode new)
              (record st { objects = put s new st.objects }) in
          rw (e, same.0, same.1) (h, lookup-put s stack new st.objects ∙ (rw q k))
    ]
  ]

  -- One request.
  serve-Held :
      (env : Env) (stack : String) (l : Lock) (body : Option B) (q : Request B) (st : Store C B)
      → is_foreign stack l.lock_id q ≡ true
      → Held stack l body st
      → Held stack l body (serve decode env q st)
  unfolding serve delete get
  serve-Held env stack l body (acquire s info) st f h = lock-Held stack s l body info st h
  serve-Held env stack l body (free s info) st f h = unlock-Held stack s l body info st f h
  serve-Held env stack l body (force c s) st f h = force-Held stack s l body c st f h
  serve-Held env stack l body (write s i new) st f h = update-Held env stack s i l body new st f h
  serve-Held env stack l body (purge s) st f (h, k) =
      (h, lookup-keep stack s st.objects (ground arith) ∙ k)

  -- While a stack is locked, no request of the others changes its lock or its state, in any order
  -- and number: locks and unlocks with another ID, writes with an ID that is neither empty nor the
  -- one of the lock, and every request to another stack.
  pub serve_all-Held :
      (env : Env) (stack : String) (l : Lock) (body : Option B) (qs : List (Request B))
      (st : Store C B)
      → all_foreign stack l.lock_id qs ≡ true
      → Held stack l body st
      → Held stack l body (serve_all decode env qs st)
  unfolding serve_all
  serve_all-Held env stack l body [] st f h = h
  serve_all-Held env stack l body (q ∷ qs) st f h =
      serve_all-Held env stack l body qs (serve decode env q st) (ground arith)
        (serve-Held env stack l body q st (ground arith) h)

  -- A write without an ID goes through whoever holds the lock of the stack, and replaces its state.
  pub update-unchecked :
      (env : Env) (stack : String) (new : B) (st : Store C B)
      → get stack (update decode env stack "" new st).1 ≡ some new
  unfolding update get assert_lock_holder
  update-unchecked env stack new st =
      let same =
        record_snapshot_lem env stack new (decode new)
          (record st { objects = put stack new st.objects }) in
      rw (assert_lock_holder-empty stack st, same.1)
        (lookup-put stack stack new st.objects ∙ ground (arith, eq_iff stack stack))
