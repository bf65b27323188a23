-- ===== src/Runs/Create/Admission.antt =====
-- Which runs are admitted: quotas, variable overrides, and what may be removed or run again.
use crucible_iap.Base.{
  ℕ, suc, ◌≤◌, ◌<◌, String, ◌≡◌, refl, true, false, not, ◌&&◌, Option, none, some, List, [], ◌∷◌,
  ◌++◌, inl, inr, arith, Bool-cases, Option-cases, length, keep, count_if, count_if-append,
}
use crucible_iap.Db.{RunType, Run, Stack, Db}
use crucible_iap.Db.Env.{Env, Caller, ok}
use crucible_iap.Db.Query.{NewRun, find_run, find_stack, inserted}
use crucible_iap.Access.{may_write_stack, may_write, stack_role}
use crucible_iap.Quotas.{of_org, count_active_runs, quota_of, check_concurrent_quota}
use crucible_iap.Runs.Status.{is_active, is_terminal}
use crucible_iap.Runs.Review.{is_run}
use crucible_iap.Runs.Control.{own_run, delete}
use crucible_iap.Runs.Create.{
  override_all, parse_var_overrides, requested_type, start_run, admit, create_on, create,
  retrigger_on, retrigger,
}

override_all-length :
    (raw : List (String × String)) {out : List String}
    → override_all raw ≡ some out
    → length out ≡ length raw
unfolding override_all
override_all-length [] {out} e = ground arith
override_all-length ((k, v) ∷ rest) {out} e = elim (Option-cases (override_all rest)) [
  | inl f ↦ absurd (ground arith)
  | inr (vs, f) ↦ ground (arith, override_all-length rest {out = vs} f)
]

-- The variable overrides that are accepted are as many as were given, and fifty at the most.
pub parse_var_overrides-bound :
    (raw : List (String × String)) (out : List String)
    → parse_var_overrides raw ≡ some out
    → (length out ≡ length raw) × (length out ≤ 50)
unfolding parse_var_overrides
parse_var_overrides-bound raw out e = (
  ground (arith, override_all-length raw {out = out}),
  ground (arith, override_all-length raw {out = out}),
)

module _ {C : Type 0} where
  abbrev pub manual : String → Stack C → RunType → List String → NewRun
  manual id s t vs = record {
    stack_id = id;
    worker_pool_id = s.worker_pool_id;
    type = t;
    trigger = "manual";
    is_drift = false;
    var_overrides = vs;
    triggered_by_dep_id = none;
    retry_attempt = 0;
  }

  added_row :
      (env : Env) (id : String) (s : Stack C) (t : RunType) (vs : List String) (org : String)
      (db : Db C)
      → count_if
          (λ r. of_org org db r && is_active r.status)
          (db.runs ++ inserted env (manual id s t vs) db ∷ [])
        ≤ suc (count_if (λ r. of_org org db r && is_active r.status) db.runs)
  added_row env id s t vs org db = ground (
    arith,
    count_if-append (λ r. of_org org db r && is_active r.status) db.runs
        (inserted env (manual id s t vs) db ∷ []),
  )

  start_run-count :
      (env : Env) (c : Caller) (action id org : String) (s : Stack C) (t : RunType)
      (vs : List String) (db : Db C)
      → count_active_runs org (start_run env c action id s t vs db).1
        ≤ suc (count_active_runs org db)
  unfolding count_active_runs
  start_run-count env c action id org s t vs db = elim (Option-cases s.worker_pool_id) [
    | inl g ↦ rw g (added_row env id s t vs org db)
    | inr (p, g) ↦ rw g (added_row env id s t vs org db)
  ]

  start_run-runs :
      (env : Env) (c : Caller) (action id : String) (s : Stack C) (t : RunType) (vs : List String)
      (db : Db C)
      → (start_run env c action id s t vs db).1.runs
        ≡ db.runs ++ inserted env (manual id s t vs) db ∷ []
  start_run-runs env c action id s t vs db = ground arith

  admit-below :
      (org : String) (s : Stack C) (db : Db C) (limit : ℕ)
      → admit org s db ≡ none
      → quota_of org db ≡ some limit
      → count_active_runs org db < limit
  unfolding check_concurrent_quota
  admit-below org s db limit h k = ground arith

  create_on-count :
      (env : Env) (c : Caller) (id : String) (t : Option RunType) (vs : List String) (s : Stack C)
      (db : Db C) (limit : ℕ) {new : String}
      → (create_on env c id t vs s db).0 ≡ ok new
      → quota_of c.org_id db ≡ some limit
      → count_active_runs c.org_id (create_on env c id t vs s db).1 ≤ limit
  unfolding create_on
  create_on-count env c id t vs s db limit {new} h k = elim (Option-cases (admit c.org_id s db)) [
    | inr (code, e) ↦ absurd (ground arith)
    | inl e ↦ elim (Option-cases t) [
      | inl f ↦ absurd (ground arith)
      | inr (ty, f) ↦
          rw (e, create_on)
            (rw f (
              omega (
                arith,
                admit-below c.org_id s db limit e k,
                start_run-count env c "run.created" id c.org_id s ty vs db,
              )))
    ]
  ]

  -- A run that is created leaves the number of active runs of the caller's organisation within the
  -- quota, if the organisation has one.
  pub create-within_quota :
      (env : Env) (c : Caller) (stack_id type : String) (raw : List (String × String)) (db : Db C)
      (limit : ℕ) {new : String}
      → (create env c stack_id type raw db).0 ≡ ok new
      → quota_of c.org_id db ≡ some limit
      → count_active_runs c.org_id (create env c stack_id type raw db).1 ≤ limit
  unfolding create
  create-within_quota env c stack_id type raw db limit {new} h k =
      elim (Bool-cases (may_write_stack c stack_id db)) [
        | inr m ↦ absurd (ground arith)
        | inl m ↦ elim (Option-cases (parse_var_overrides raw)) [
          | inl e ↦ absurd (ground arith)
          | inr (vs, e) ↦ elim (Option-cases (find_stack stack_id db)) [
            | inl f ↦ absurd (ground arith)
            | inr (s, f) ↦
                rw (m, create)
                  (rw (e, f)
                    (create_on-count env c stack_id (requested_type type) vs s db limit {new = new}
                      (ground arith) k))
          ]
        ]
      ]

  own_run-find :
      (c : Caller) (id : String) (db : Db C) {r : Run C}
      → own_run c id db ≡ some r
      → find_run id db ≡ some r
  own_run-find c id db {r} h = elim (Option-cases (find_run id db)) [
    | inl e ↦ absurd (ground arith)
    | inr (x, e) ↦ elim (Option-cases (find_stack x.stack_id db)) [
      | inl f ↦ absurd (ground arith)
      | inr (s, f) ↦ ground arith
    ]
  ]

  -- Only a run with a terminal status is deleted, by a caller of its stack's organisation; the rows of
  -- all other runs stay as they are.
  pub delete-terminal :
      (env : Env) (c : Caller) (id : String) (db : Db C)
      → (delete env c id db).0 ≡ ok tt
      → (r : Run C) × (find_run id db ≡ some r)
        × (is_terminal r.status ≡ true)
        × (own_run c id db ≡ some r)
        × ((delete env c id db).1.runs ≡ keep (λ x. not (is_run id x)) db.runs)
  unfolding delete
  delete-terminal env c id db h = elim (Option-cases (own_run c id db)) [
    | inl e ↦ absurd (ground arith)
    | inr (r, e) ↦ elim (Bool-cases (is_terminal r.status)) [
      | inr f ↦ absurd (ground arith)
      | inl f ↦ (r, own_run-find c id db {r = r} e, f, e, rw (e, delete) (rw f refl))
    ]
  ]

  -- A run is started again only from a terminal status, on a stack that is not locked; the new run is
  -- of the same stack, the same type and the same variable overrides.
  pub retrigger-copies :
      (env : Env) (c : Caller) (id : String) (db : Db C) {new : String}
      → (retrigger env c id db).0 ≡ ok new
      → (src : Run C) × (s : Stack C) × (own_run c id db ≡ some src)
        × (is_terminal src.status ≡ true)
        × (s.is_locked ≡ false)
        × ((retrigger env c id db).1.runs
            ≡ db.runs ++ inserted env (manual src.stack_id s src.type src.var_overrides) db ∷ [])
  unfolding retrigger retrigger_on
  retrigger-copies env c id db {new} h = elim (Option-cases (own_run c id db)) [
    | inl e ↦ absurd (ground arith)
    | inr (src, e) ↦ elim (Option-cases (find_stack src.stack_id db)) [
      | inl f ↦ absurd (ground arith)
      | inr (s, f) ↦ elim (Bool-cases (is_terminal src.status)) [
        | inr t ↦ absurd (ground arith)
        | inl t ↦ elim (Bool-cases (may_write (stack_role src.stack_id c.user_id c.org_id db))) [
          | inr w ↦ absurd (ground arith)
          | inl w ↦ elim (Option-cases (admit c.org_id s db)) [
            | inr (code, a) ↦ absurd (ground arith)
            | inl a ↦ (
              src,
              s,
              e,
              t,
              ground arith,
              rw (e, retrigger)
                  (rw (t, w, f)
                    (rw (a, retrigger_on)
                      (start_run-runs env c "run.retriggered" src.stack_id s src.type
                        src.var_overrides db))),
            )
          ]
        ]
      ]
    ]
  ]
