-- ===== src/Worker/Schedules/Firing.antt =====
-- What the TTL pass leaves, and what becomes of the runs that the passes insert for the stack of a
-- worker pool.
use crucible_iap.Base.{
  ◌+◌, String, ◌≡◌, refl, ap, ◌∙◌, Bool, true, false, not, ◌&&◌, none, List, [], ◌∷◌, str_eq,
  eq_iff, arith, Bool-cases, keep, any, count_if, count_if-append, update_where,
}
use crucible_iap.Db.{typed, destroy, Stack, Job, Db}
use crucible_iap.Db.Env.{Env}
use crucible_iap.Worker.Schedules.{
  ttl_is_due, clear_ttl, enqueue_ttl_destroy, destroy_each, run_ttl_destroys,
}

abbrev pub is_job_of : String → Job → Bool
is_job_of stack j = str_eq j.args.stack_id stack

module _ {C : Type 0} where
  abbrev in_list : List (Stack C) → Stack C → Bool
  in_list due s = any (λ d. str_eq s.id d.id) due

  cleared :
      (env : Env) (id : String) (p : Stack C → Bool) (ss : List (Stack C))
      → any
          (λ s. ttl_is_due env s && p s)
          (update_where (λ s. str_eq s.id id) (λ s. record s { scheduled_destroy_at = none }) ss)
        ≡ any (λ s. ttl_is_due env s && (not (str_eq s.id id) && p s)) ss
  cleared env id p [] = refl
  cleared env id p (s ∷ ss) = ground (arith, cleared env id p ss)

  any-ext :
      {p q : Stack C → Bool}
      → ((s : Stack C) → p s ≡ q s)
      → (ss : List (Stack C)) → any p ss ≡ any q ss
  any-ext h [] = refl
  any-ext h (s ∷ ss) = ground (arith, h s, any-ext h ss)

  -- a row is still due when it was due before and is none of the list
  destroy_each-due :
      (env : Env) (due : List (Stack C)) (db : Db C)
      → any (ttl_is_due env) (destroy_each env due db).stacks
        ≡ any (λ s. ttl_is_due env s && not (in_list due s)) db.stacks
  unfolding destroy_each
  destroy_each-due env [] db = any-ext (λ s. ground arith) db.stacks
  destroy_each-due env (d ∷ due) db =
      let next = clear_ttl d.id (enqueue_ttl_destroy env d db) in
      destroy_each-due env due next
      ∙ cleared env d.id (λ s. not (in_list due s)) db.stacks
      ∙ any-ext (λ s. ground arith) db.stacks

  none_left :
      (env : Env) (due ss : List (Stack C))
      → ((s : Stack C) → in_list (keep (ttl_is_due env) ss) s ≡ true → in_list due s ≡ true)
      → any (λ s. ttl_is_due env s && not (in_list due s)) ss ≡ false
  none_left env due [] h = refl
  none_left env due (s ∷ ss) h = ground (
    arith,
    h s,
    eq_iff s.id s.id,
    none_left env due ss (λ x k. h x (ground (arith, Bool-cases (ttl_is_due env s)))),
  )

  destroy_each-jobs :
      (env : Env) (stack : String) (due : List (Stack C)) (db : Db C)
      → count_if (is_job_of stack) (destroy_each env due db).jobs
        ≡ count_if (is_job_of stack) db.jobs + count_if (λ s. str_eq s.id stack) due
  unfolding destroy_each
  destroy_each-jobs env stack [] db = omega arith
  destroy_each-jobs env stack (d ∷ due) db =
      let next = clear_ttl d.id (enqueue_ttl_destroy env d db) in
      ground (
        arith,
        destroy_each-jobs env stack due next,
        count_if-append (is_job_of stack) db.jobs (
            (record {
              args = record {
                run_id = env.uuid db.serial;
                stack_id = d.id;
                source = d.source;
                run_type = typed destroy;
                api_url = env.base_url;
                auto_apply = false;
                var_overrides = [];
              };
              scheduled_at = none;
            })
            ∷ []),
      )

  count_if-keep :
      (p q : Stack C → Bool) (ss : List (Stack C))
      → count_if p (keep q ss) ≡ count_if (λ s. q s && p s) ss
  count_if-keep p q [] = refl
  count_if-keep p q (s ∷ ss) = ground (arith, count_if-keep p q ss)

  -- After the TTL pass no enabled stack is due any more, and each stack has got one job for each of
  -- its rows that was due.
  pub run_ttl_destroys-once :
      (env : Env) (stack : String) (db : Db C)
      → (any (ttl_is_due env) (run_ttl_destroys env db).stacks ≡ false)
        × (count_if (is_job_of stack) (run_ttl_destroys env db).jobs
            ≡ count_if (is_job_of stack) db.jobs
              + count_if (λ s. ttl_is_due env s && str_eq s.id stack) db.stacks)
  unfolding run_ttl_destroys
  run_ttl_destroys-once env stack db = (
    destroy_each-due env (keep (ttl_is_due env) db.stacks) db
        ∙ none_left env (keep (ttl_is_due env) db.stacks) db.stacks (λ s h. h),
    destroy_each-jobs env stack (keep (ttl_is_due env) db.stacks) db
        ∙ ap (λ n. count_if (is_job_of stack) db.jobs + n)
            (count_if-keep (λ s. str_eq s.id stack) (ttl_is_due env) db.stacks),
  )
