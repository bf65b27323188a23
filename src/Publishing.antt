-- ===== src/Publishing.antt =====
-- internal/worker/module_publish.go: a tag of a stack that is a module becomes an archive in the
-- registry. `fetch` is the download of an archive, gunzipped and untarred to its entries, none where
-- that fails; `is_readme` is the comparison of a file's base name with readme.md in any case; a zipped
-- archive is the list of its files. `text_of` is the text of a file's bytes.
pub mod Archive
use Prim.Native.Char.{code}
use crucible_iap.Base.{
  ℕ, ◌*◌, ◌^◌, String, Bool, true, false, not, ◌&&◌, ◌||◌, Option, none, some, List, [], ◌∷◌, ◌++◌,
  str_eq, str_append, ◌==◌, if◌then◌else◌, any, find?, is_some, update_where,
}
use crucible_iap.Base.Bytes.{Bytes, take}
use crucible_iap.Base.Map.{put}
use crucible_iap.Db.{Stack, Db}
use crucible_iap.Db.Query.{find_stack}
use crucible_iap.Webhooks.Events.{strip_prefix, trim_prefix}
use crucible_iap.Webhooks.Deliveries.{ModulePublishArgs}

-- `tarEntry`
pub record TarEntry : Type 0 where
  pub name : String
  pub content : Bytes
  pub mode : ℕ

-- an entry of a tar archive, with the parts of its header that the code reads
pub record TarFile : Type 0 where
  pub name : String
  pub is_regular : Bool
  pub content : Bytes
  pub mode : ℕ

-- what io.LimitReader lets through of a file
abbrev pub entry_limit : ℕ
entry_limit = 10 * 2 ^ 20

abbrev pub read_entry : TarFile → TarEntry
read_entry f = record { name = f.name; content = take entry_limit f.content; mode = f.mode }

-- `readTarEntries`
unfoldable pub read_tar_entries : List TarFile → List TarEntry
read_tar_entries [] = []
read_tar_entries (f ∷ files) =
    let rest = read_tar_entries files in if f.is_regular then read_entry f ∷ rest else rest

-- s[:strings.Index(s, "/")+1], none where there is no slash
unfoldable pub top_directory : String → Option String
top_directory String.[] = none
top_directory (String.◌∷◌ c s) =
    let rest = top_directory s in
    if code c == b'/'
    then some (String.◌∷◌ c String.[])
    else (elim rest [ none ↦ none | some d ↦ some (String.◌∷◌ c d) ])

unfoldable pub trim_left : String → String
trim_left String.[] = String.[]
trim_left (String.◌∷◌ c s) =
    let rest = trim_left s in if code c == b'/' then rest else String.◌∷◌ c s

unfoldable pub all_slashes : String → Bool
all_slashes String.[] = true
all_slashes (String.◌∷◌ c s) = code c == b'/' && all_slashes s

unfoldable pub trim_right : String → String
unfolding all_slashes
trim_right String.[] = String.[]
trim_right (String.◌∷◌ c s) =
    let rest = trim_right s in if all_slashes (String.◌∷◌ c s) then String.[] else String.◌∷◌ c rest

-- the prefix that `repackageModule` strips, from the name of the first entry
abbrev pub or_empty : Option String → String
or_empty none = ""
or_empty (some d) = d

abbrev pub prefix_of : String → String → String
prefix_of first root =
    let strip = or_empty (top_directory first) in
    if not (str_eq root "")
    then str_append strip (str_append (trim_right (trim_left root)) "/")
    else strip

abbrev pub is_left_out : String → Bool
is_left_out name = str_eq name "" || is_some (strip_prefix "../" name)

module _ (is_readme : String → Bool) (text_of : Bytes → String) where
  -- the loop of `writeTarGz`, with the readme found so far
  unfoldable pub write_entries :
      String → List TarEntry → String → List TarEntry → List TarEntry × String
  write_entries prefix [] readme out = (out, readme)
  write_entries prefix (e ∷ entries) readme out =
      let name = trim_prefix prefix e.name in
      write_entries prefix entries
        (if not (is_left_out name) && is_readme name && str_eq readme ""
          then text_of e.content
          else readme)
        (if is_left_out name then out else out ++ (record e { name = name }) ∷ [])

  -- `repackageModule` after `readTarEntries`; an empty archive is an error
  unfoldable pub repackage_entries : List TarEntry → String → Option (List TarEntry × String)
  unfolding write_entries
  repackage_entries [] root = none
  repackage_entries (e ∷ entries) root =
      some (write_entries (prefix_of e.name root) (e ∷ entries) "" [])

  -- `repackageModule`
  unfoldable pub repackage_module : List TarFile → String → Option (List TarEntry × String)
  unfolding repackage_entries read_tar_entries
  repackage_module archive root = repackage_entries (read_tar_entries archive) root

-- strings.TrimSuffix
unfoldable pub trim_suffix : String → String → String
trim_suffix suffix String.[] = String.[]
trim_suffix suffix (String.◌∷◌ c s) =
    let rest = trim_suffix suffix s in
    if str_eq (String.◌∷◌ c s) suffix then String.[] else String.◌∷◌ c rest

-- the parts before and after the first slash
unfoldable pub cut_slash : String → Option (String × String)
cut_slash String.[] = none
cut_slash (String.◌∷◌ c s) =
    let rest = cut_slash s in
    if code c == b'/'
    then some (String.[], s)
    else (elim rest [ none ↦ none | some (a, b) ↦ some (String.◌∷◌ c a, b) ])

-- strings.ReplaceAll(s, "/", "%2F")
unfoldable pub escape_slashes : String → String
escape_slashes String.[] = String.[]
escape_slashes (String.◌∷◌ c s) =
    let rest = escape_slashes s in
    if code c == b'/' then str_append "%2F" rest else String.◌∷◌ c rest

-- the host and the path of a URL with three slashes: strings.SplitN(base, "/", 4)
abbrev pub split_url : String → Option (String × String)
split_url base = elim (cut_slash base) [
  | none ↦ none
  | some (scheme, r) ↦ elim (cut_slash r) [
    | none ↦ none
    | some (between, q) ↦ elim (cut_slash q) [
      | none ↦ none
      | some (host, path) ↦ some (str_append scheme (str_append "//" host), path)
    ]
  ]
]

-- `buildArchiveURL`
unfoldable pub build_archive_url : String → String → String → String → String
build_archive_url provider base_url repo_url tag =
    if str_eq provider "gitlab"
    then (elim (split_url (trim_suffix ".git" repo_url)) [
      | none ↦ repo_url
      | some (host, path) ↦
          str_append (if str_eq base_url "" then host else trim_suffix "/" base_url) (
            str_append "/api/v4/projects/"
              (str_append (escape_slashes path) (str_append "/repository/archive.tar.gz?sha=" tag)))
    ])
    else str_append (trim_suffix ".git" repo_url)
        (str_append "/archive/refs/tags/" (str_append tag ".tar.gz"))

-- storage.ModuleKey
abbrev pub module_key : ModulePublishArgs → String
module_key a = str_append "registry/" (
    str_append a.namespace (
      str_append "/" (
        str_append a.name (
          str_append "/"
            (str_append a.provider (str_append "/" (str_append a.version ".tar.gz")))))))

-- a row of registry_modules
pub record ModuleRow : Type 0 where
  pub org_id : String
  pub namespace : String
  pub name : String
  pub provider : String
  pub version : String
  pub storage_key : String
  pub readme : String
  pub yanked : Bool

-- the registry, with the stored archives by their keys
pub record Registry : Type 0 where
  pub modules : List ModuleRow
  pub archives : List (String × List TarEntry)

abbrev pub module_row : String → ModulePublishArgs → String → ModuleRow
module_row org a readme = record {
  org_id = org;
  namespace = a.namespace;
  name = a.name;
  provider = a.provider;
  version = a.version;
  storage_key = module_key a;
  readme = readme;
  yanked = false;
}

-- the key of the table
abbrev pub same_module : ModuleRow → ModuleRow → Bool
same_module a b =
    str_eq a.org_id b.org_id
    && str_eq a.namespace b.namespace
    && str_eq a.name b.name
    && str_eq a.provider b.provider
    && str_eq a.version b.version

-- INSERT … ON CONFLICT DO UPDATE
abbrev pub upsert_module : ModuleRow → List ModuleRow → List ModuleRow
upsert_module r rows =
    if any (λ x. same_module x r) rows
    then update_where (λ x. same_module x r) (λ x. r) rows
    else rows ++ r ∷ []

module _ (is_readme : String → Bool) (text_of : Bytes → String) where
  store_module :
      ModulePublishArgs → String → Option (List TarEntry × String) → Registry → Option Registry
  store_module a org none g = none
  store_module a org (some (entries, readme)) g = some (record g {
    modules = upsert_module (module_row org a readme) g.modules;
    archives = put (module_key a) entries g.archives;
  })

  publish_stack :
      (String → Option (List TarFile))
      → ModulePublishArgs
      → String
      → String
      → String
      → String
      → String
      → Registry
      → Option Registry
  unfolding store_module
  publish_stack fetch a org repo_url root provider base_url g =
      elim (fetch (build_archive_url provider base_url repo_url a.tag_name)) [
        | none ↦ none
        | some archive ↦ store_module a org (repackage_module is_readme text_of archive root) g
      ]

  -- `Work`, with the columns vcs_provider and vcs_base_url of a stack; none is the error, after which
  -- the job is tried again
  unfoldable pub publish_module :
      {C : Type 0}
      → (String → String × String)
      → (String → Option (List TarFile))
      → ModulePublishArgs
      → Db C
      → Registry
      → Option Registry
  unfolding publish_stack
  publish_module vcs fetch a db g = elim (find_stack a.stack_id db) [
    | none ↦ none
    | some s ↦
        publish_stack fetch a s.org_id s.source.repo_url s.source.project_root (vcs s.id).0
          (vcs s.id).1 g
  ]
