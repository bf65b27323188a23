-- ===== src/Tests/States.antt =====
-- The backend of the states at concrete inputs.
use crucible_iap.Base.{ℕ, ◌≡◌, refl, Option, none, some, List, [], ◌∷◌}
use crucible_iap.Db.{null}
use crucible_iap.State.{Lock, Store, Document, get}
use crucible_iap.Base.Bytes.{codes}
use crucible_iap.State.Keys.{storage_key, extract_version_id, extract_version_id-storage_key}
use crucible_iap.State.Exclusive.{Request, Held, serve_all, serve_all-Held}
use crucible_iap.Tests.Fixtures.{env, ann, stack, db_of}

abbrev held : Lock
held = record { stack_id = "net"; lock_id = "L1"; operation = "apply" }

-- a document is a number, and no number decodes
abbrev decode : ℕ → Option (Document ℕ)
decode n = none

abbrev locked : Store ℕ ℕ
locked = record {
  db = db_of [] (stack null none);
  locks = held ∷ [];
  objects = ("net", 1) ∷ [];
  snapshots = [];
  versions = [];
}

abbrev others : List (Request ℕ)
others =
    Request.acquire "net" (some (record { id = "L2"; operation = "plan" }))
    ∷ Request.free "net" (some (record { id = "L2"; operation = "plan" }))
    ∷ Request.write "net" "L2" 7
    ∷ Request.write "app" "" 8
    ∷ Request.force ann "app"
    ∷ []

serve_all-Held_example : Held "net" held (some 1) (serve_all decode env others locked)
unfolding get
serve_all-Held_example =
    serve_all-Held decode env "net" held (some 1) others locked refl (refl, refl)

extract_version_id-storage_key_example :
    extract_version_id (storage_key (codes "net") (codes "v1")) ≡ codes "v1"
extract_version_id-storage_key_example =
    extract_version_id-storage_key (codes "net") (codes "v1") refl
