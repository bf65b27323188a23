-- ===== src/Quotas/Settings.antt =====
-- internal/quotas/handler.go: `Get`, `Update` and `Status`, the requests for the quota of the
-- caller's organisation.
use crucible_iap.Base.{
  ℕ, String, ◌≡◌, refl, ap, inl, inr, true, false, Option, none, some, List, [], ◌∷◌, ◌++◌, str_eq,
  eq_iff, arith, if◌then◌else◌, any, find?, update_where, Bool-cases,
}
use crucible_iap.Base.Int.{ℤ, pos, negsuc}
use crucible_iap.Db.{OrgQuota, Event, Db}
use crucible_iap.Db.Env.{Caller, Result, ok, http_error}
use crucible_iap.Db.Query.{audit}
use crucible_iap.Quotas.{count_active_runs, quota_of, check_cap, check_concurrent_quota}

-- `QuotaStatus`
pub record QuotaStatus : Type 0 where
  pub max_concurrent_runs : Option ℕ
  pub active_concurrent_runs : ℕ

-- the body of `Update`: no cap, a cap, or the cap that is refused
abbrev pub requested_cap : Option ℤ → Result (Option ℕ)
requested_cap none = ok none
requested_cap (some (pos n)) = ok (some n)
requested_cap (some (negsuc n)) = http_error 400

abbrev quota_event : Caller → Event
quota_event c = record {
  actor_id = c.user_id;
  actor_type = "user";
  action = "org_quota.updated";
  resource_id = c.org_id;
  org_id = c.org_id;
}

-- INSERT INTO org_quotas … ON CONFLICT (org_id) DO UPDATE
abbrev pub upsert : String → Option ℕ → List OrgQuota → List OrgQuota
upsert org cap rows =
    if any (λ q. str_eq q.org_id org) rows
    then update_where (λ q. str_eq q.org_id org) (λ q. record q { max_concurrent_runs = cap }) rows
    else rows ++ (record { org_id = org; max_concurrent_runs = cap }) ∷ []

module _ {C : Type 0} where
  -- `Get`
  unfoldable pub get : Caller → Db C → Option ℕ
  get c db = quota_of c.org_id db

  unfoldable pub store_cap : Caller → Result (Option ℕ) → Db C → Result (Option ℕ) × Db C
  unfolding get
  store_cap c (http_error code) db = (http_error code, db)
  store_cap c (ok cap) db =
      let updated =
        audit (quota_event c) (record db { org_quotas = upsert c.org_id cap db.org_quotas }) in
      (ok (get c updated), updated)

  -- `Update`
  unfoldable pub update : Caller → Option ℤ → Db C → Result (Option ℕ) × Db C
  unfolding store_cap
  update c requested db = store_cap c (requested_cap requested) db

  -- `Status`
  unfoldable pub status : Caller → Db C → QuotaStatus
  status c db = record {
    max_concurrent_runs = quota_of c.org_id db;
    active_concurrent_runs = count_active_runs c.org_id db;
  }

upsert-found :
    (org : String) (cap : Option ℕ) (rows : List OrgQuota)
    → any (λ q. str_eq q.org_id org) rows ≡ true
    → (q : OrgQuota) × (find?
          (λ x. str_eq x.org_id org)
          (update_where
            (λ x. str_eq x.org_id org)
            (λ x. record x { max_concurrent_runs = cap })
            rows)
        ≡ some q)
      × (q.max_concurrent_runs ≡ cap)
upsert-found org cap [] h = absurd (ground arith)
upsert-found org cap (r ∷ rows) h = elim (Bool-cases (str_eq r.org_id org)) [
  | inl e ↦ rw e (rw e (record r { max_concurrent_runs = cap }, refl, refl))
  | inr e ↦ rw e (rw e (upsert-found org cap rows (ground arith)))
]

upsert-appended :
    (org : String) (cap : Option ℕ) (rows : List OrgQuota)
    → any (λ q. str_eq q.org_id org) rows ≡ false
    → find?
        (λ x. str_eq x.org_id org)
        (rows ++ (record { org_id = org; max_concurrent_runs = cap }) ∷ [])
      ≡ some (record { org_id = org; max_concurrent_runs = cap })
upsert-appended org cap [] h = ground (arith, eq_iff org org)
upsert-appended org cap (r ∷ rows) h = ground (arith, upsert-appended org cap rows)

module _ {C : Type 0} where
  upsert-quota_of :
      (org : String) (cap : Option ℕ) (db : Db C)
      → quota_of org (record db { org_quotas = upsert org cap db.org_quotas }) ≡ cap
  upsert-quota_of org cap db = elim (Bool-cases (any (λ q. str_eq q.org_id org) db.org_quotas)) [
    | inl e ↦ let (q, f, k) = upsert-found org cap db.org_quotas e in rw e (rw (f, quota_of) k)
    | inr e ↦ rw e (rw (upsert-appended org cap db.org_quotas e, quota_of) refl)
  ]

  -- A cap that is accepted is the one that the update answers, that the status shows with the runs
  -- that count toward it, and that the check of the next run takes.
  pub update-read :
      (c : Caller) (requested : Option ℤ) (cap : Option ℕ) (db : Db C)
      → requested_cap requested ≡ ok cap
      → ((update c requested db).0 ≡ ok cap)
        × ((status c (update c requested db).1).max_concurrent_runs ≡ cap)
        × (check_concurrent_quota c.org_id (update c requested db).1
            ≡ check_cap cap (status c (update c requested db).1).active_concurrent_runs)
  unfolding update store_cap get status check_concurrent_quota
  update-read c requested cap db h = (
    rw (h, update) (ap ok (upsert-quota_of c.org_id cap db)),
    rw (h, update) (upsert-quota_of c.org_id cap db),
    rw (h, update)
        (ap (λ x. check_cap x (count_active_runs c.org_id (store_cap c (ok cap) db).1))
          (upsert-quota_of c.org_id cap db)),
  )
