-- ===== src/State/Keys.antt =====
-- internal/state/handler.go: the storage key of a recorded version, and `extractVersionID`, which
-- takes the version out of it. Texts are bytes.
use crucible_iap.Base.{
  ◌-◌, ◌<◌, ◌≡◌, refl, sym, ap, ◌∙◌, Bool, true, false, ◌&&◌, Option, none, some, [], ◌∷◌, ◌++◌,
  ltb, ◌==◌, if◌then◌else◌, arith, any, length, length-append,
}
use crucible_iap.Base.Bytes.{Bytes, codes, take, drop, bytes_eq, take-append, drop-append}

-- `stackID + "/versions/" + versionID + ".json"`
unfoldable pub storage_key : Bytes → Bytes → Bytes
storage_key stack version = stack ++ (codes "/versions/" ++ (version ++ codes ".json"))

-- a text without its suffix ".json", where something stands before it
unfoldable pub trim_json : Bytes → Bytes
trim_json s =
    let at_end = length s - 5 in
    if ltb 5 (length s) && bytes_eq (drop at_end s) (codes ".json") then take at_end s else s

-- the loop from the end: what stands after the last slash
unfoldable pub after_last_slash : Bytes → Option Bytes
after_last_slash [] = none
after_last_slash (c ∷ s) = elim (after_last_slash s) [
  | some r ↦ some r
  | none ↦ if c == b'/' then some s else none
]

-- `extractVersionID`
unfoldable pub extract_version_id : Bytes → Bytes
extract_version_id key =
    let parts = trim_json key in elim (after_last_slash parts) [ some r ↦ r | none ↦ parts ]

abbrev pub has_slash : Bytes → Bool
has_slash = any (λ c. c == b'/')

after_last_slash-none : (s : Bytes) → has_slash s ≡ false → after_last_slash s ≡ none
unfolding after_last_slash
after_last_slash-none [] h = refl
after_last_slash-none (c ∷ s) h = ground (arith, after_last_slash-none s)

-- a prefix that ends with a slash is passed over
after_last_slash-append :
    (p v : Bytes) → has_slash v ≡ false → after_last_slash (p ++ (b'/' ∷ v)) ≡ some v
unfolding after_last_slash
after_last_slash-append [] v h = rw (after_last_slash-none v h) refl
after_last_slash-append (c ∷ p) v h = rw (after_last_slash-append p v h) refl

append_assoc : (a b c : Bytes) → (a ++ b) ++ c ≡ a ++ (b ++ c)
append_assoc [] b c = refl
append_assoc (x ∷ a) b c = ap (λ r. x ∷ r) (append_assoc a b c)

trim_json-append : (s : Bytes) → 0 < length s → trim_json (s ++ codes ".json") ≡ s
unfolding trim_json
trim_json-append s h =
    let n : length (s ++ codes ".json") - 5 ≡ length s =
      omega (arith, length-append s (codes ".json")) in
    let big : ltb 5 (length (s ++ codes ".json")) ≡ true =
      ground (arith, length-append s (codes ".json")) in
    rw (n, big, drop-append s (codes ".json"), take-append s (codes ".json")) refl

abbrev versions_dir : Bytes → Bytes
versions_dir stack = stack ++ codes "/versions"

storage_key_lem :
    (stack version : Bytes)
    → storage_key stack version ≡ (versions_dir stack ++ (b'/' ∷ version)) ++ codes ".json"
unfolding storage_key
storage_key_lem stack version = sym (
    append_assoc (versions_dir stack) (b'/' ∷ version) (codes ".json")
    ∙ append_assoc stack (codes "/versions") ((b'/' ∷ version) ++ codes ".json"))

extract_version_id_lem :
    (key parts version : Bytes)
    → trim_json key ≡ parts
    → after_last_slash parts ≡ some version
    → extract_version_id key ≡ version
unfolding extract_version_id
extract_version_id_lem key parts version h k = rw (h, extract_version_id) (rw k refl)

-- The version is read back from its storage key, for every stack, if the version has no slash.
pub extract_version_id-storage_key :
    (stack version : Bytes)
    → has_slash version ≡ false
    → extract_version_id (storage_key stack version) ≡ version
extract_version_id-storage_key stack version h =
    let dir = versions_dir stack in
    extract_version_id_lem (storage_key stack version) (dir ++ (b'/' ∷ version)) version
      (ap trim_json (storage_key_lem stack version)
        ∙ trim_json-append (dir ++ (b'/' ∷ version))
            (omega (arith, length-append dir (b'/' ∷ version))))
      (after_last_slash-append dir version h)
