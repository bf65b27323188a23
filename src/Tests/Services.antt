-- ===== src/Tests/Services.antt =====
-- The tokens, the validation and the publishing at concrete inputs.
use crucible_iap.Base.{
  ℕ, String, ◌≡◌, refl, Bool, true, false, none, some, [], ◌∷◌, ◌++◌, str_eq, length, arith,
}
use crucible_iap.Base.Bytes.{Bytes, codes}
use crucible_iap.Db.{null, Db}
use crucible_iap.Policy.{
  PolicyResult, Policy, evaluate_all, evaluate_by_ids, parse_result_set, parse_object,
  extract_strings, extract_bool, field_of, strings, array_strings, is_true,
}
use crucible_iap.Chatops.{generate_token, validate_token}
use crucible_iap.Chatops.Tokens.{validate_token-generate_token, validate_token-bound}
use crucible_iap.Validation.{
  Check, Validations, ValidationResult, load_validation_policy_ids, find_check, work,
}
use crucible_iap.Validation.Verdict.{work-verdict}
use crucible_iap.Publishing.{
  TarEntry, TarFile, read_tar_entries, top_directory, repackage_module, trim_left, trim_right,
  all_slashes,
}
use crucible_iap.Publishing.Archive.{repackage_module-placed, repackage_module-dot}
use crucible_iap.Webhooks.Events.{strip_prefix}
use crucible_iap.Tests.Fixtures.{stack, db_of, denial}

-- a code that is the key before the message
abbrev mac : Bytes → Bytes → Bytes
mac key text = key ++ text

validate_token-generate_token_example :
    validate_token mac 90000
      (generate_token mac 5000 (codes "r1") (codes "confirm") (codes "key"))
      (codes "r1")
      (codes "confirm")
      (codes "key")
    ≡ true
validate_token-generate_token_example =
    validate_token-generate_token mac 5000 90000 (codes "r1") (codes "confirm") (codes "key")
      (omega arith)

validate_token-bound_example : (codes "r1" ≡ codes "r1") × (codes "confirm" ≡ codes "confirm")
validate_token-bound_example =
    validate_token-bound mac 5000 90000 (codes "r1") (codes "confirm") (codes "r1")
      (codes "confirm") (codes "key") (omega arith) refl refl refl refl (λ e. refl)
      (validate_token-generate_token mac 5000 90000 (codes "r1") (codes "confirm") (codes "key")
        (omega arith))

abbrev guard : Policy ℕ
guard = record { id = "p1"; name = "guard"; type = "validation"; query = λ n. some denial }

abbrev check : Check
check = record {
  stack_id = "net";
  validation_interval = 5;
  validation_status = "pass";
  last_validated_at = some 100;
}

abbrev validated_db : Db ℕ
validated_db = record (db_of [] (stack null none)) {
  policies =
      (record { id = "p1"; type = "validation"; is_active = true; git_source_id = none }) ∷ [];
}

abbrev validations : Validations ℕ
validations = record { db = validated_db; checks = check ∷ []; results = []; alerts = [] }

abbrev denied : PolicyResult
denied = record {
  allow = false;
  deny = "no" ∷ [];
  warn = [];
  trigger = [];
  require_approval = false;
}

work-verdict_example :
    (after : Validations ℕ) × (work (guard ∷ []) 1000 "net" (some 3) validations ≡ some after)
    × (find_check "net" after
        ≡ some (record check { validation_status = "fail"; last_validated_at = some 1000 }))
    × (r : ValidationResult) × (after.results ≡ [] ++ r ∷ [])
    × (r.summary.deny ≡ 1)
    × (r.summary.warn ≡ 0)
    × (length r.summary.details ≡ 1)
unfolding load_validation_policy_ids evaluate_by_ids evaluate_all parse_result_set parse_object
    extract_strings extract_bool field_of strings array_strings is_true
work-verdict_example =
    work-verdict (guard ∷ []) 1000 "net" "p1" [] 3 validations (stack null none) check denied
      ((record {
        policy_id = "p1";
        policy_name = "guard";
        policy_type = "validation";
        result = denied;
      })
        ∷ [])
      refl refl refl refl

abbrev file : String → TarFile
file name = record { name = name; is_regular = true; content = 104 ∷ 105 ∷ []; mode = 420 }

abbrev directory : String → TarFile
directory name = record { name = name; is_regular = false; content = []; mode = 493 }

abbrev entry : String → TarEntry
entry name = record { name = name; content = 104 ∷ 105 ∷ []; mode = 420 }

abbrev reads : String → Bool
reads name = str_eq name "README.md"

abbrev text_of : Bytes → String
text_of n = "text"

repackage_module-placed_example :
    (readme : String) × (repackage_module reads text_of
        (directory "repo-1/" ∷ file "repo-1/sub/main.tf" ∷ file "repo-1/sub/README.md" ∷ [])
        "/sub/"
      ≡ some (entry "main.tf" ∷ entry "README.md" ∷ [], readme))
unfolding top_directory trim_left trim_right all_slashes strip_prefix
repackage_module-placed_example =
    repackage_module-placed reads text_of "repo-1/sub/" "/sub/"
      (directory "repo-1/" ∷ file "repo-1/sub/main.tf" ∷ file "repo-1/sub/README.md" ∷ [])
      (file "main.tf") (file "README.md" ∷ []) refl refl (refl, (refl, tt))

repackage_module-dot_example :
    (readme : String) × (repackage_module reads text_of
        (directory "repo-1/" ∷ file "repo-1/main.tf" ∷ file "repo-1/README.md" ∷ [])
        "."
      ≡ some (entry "repo-1/main.tf" ∷ entry "repo-1/README.md" ∷ [], readme))
unfolding top_directory strip_prefix read_tar_entries
repackage_module-dot_example =
    repackage_module-dot reads text_of "repo-1/"
      (directory "repo-1/" ∷ file "repo-1/main.tf" ∷ file "repo-1/README.md" ∷ [])
      (entry "repo-1/main.tf") (entry "repo-1/README.md" ∷ []) refl refl
      ((refl, refl), ((refl, refl), tt))
