-- ===== src/Publishing/Archive.antt =====
-- What becomes of the names of the files in a module's archive.
use Prim.Native.Char.{code}
use text.Mathlib.TextLemmas.{nil-append, cons-append}
use crucible_iap.Base.{
  String, ◌≡◌, refl, sym, ap, ◌∙◌, false, none, some, List, [], ◌∷◌, ◌++◌, str_append, ==_iff, All,
  map, keep, Bool-cases, inl, inr, Bool, arith,
}
use mathlib.Core.List.{append_assoc, append-nil}
use crucible_iap.Base.Bytes.{Bytes}
use crucible_iap.Webhooks.Events.{strip_prefix, trim_prefix}
use crucible_iap.Publishing.{
  TarEntry, TarFile, read_entry, read_tar_entries, top_directory, prefix_of, is_left_out,
  write_entries, repackage_entries, repackage_module, or_empty, trim_left, trim_right,
}

strip_prefix-append : (p s : String) → strip_prefix p (str_append p s) ≡ some s
unfolding strip_prefix
strip_prefix-append String.[] s = ap some (nil-append s)
strip_prefix-append (String.◌∷◌ c p) s =
    ap (strip_prefix (String.◌∷◌ c p)) (cons-append c p s)
    ∙ ground (arith, strip_prefix-append p s, (==_iff (code c) (code c)).1 refl)

trim_prefix-append : (p s : String) → trim_prefix p (str_append p s) ≡ s
unfolding trim_prefix
trim_prefix-append p s = rw (strip_prefix-append p s, trim_prefix) refl

trim_prefix-none : (p s : String) → strip_prefix p s ≡ none → trim_prefix p s ≡ s
unfolding trim_prefix
trim_prefix-none p s h = rw (h, trim_prefix) refl

-- an entry with its name below a prefix, and without the prefix
abbrev pub placed : String → TarEntry → TarEntry
placed prefix e = record e { name = str_append prefix e.name }

abbrev stripped : String → TarEntry → TarEntry
stripped prefix e = record e { name = trim_prefix prefix e.name }

abbrev pub Kept : String → List TarEntry → Type 0
Kept prefix entries = All (λ e. is_left_out (trim_prefix prefix e.name) ≡ false) entries

stripped-placed :
    (prefix : String) (files : List TarEntry)
    → map (stripped prefix) (map (placed prefix) files) ≡ files
stripped-placed prefix [] = refl
stripped-placed prefix (f ∷ files) =
    ap (λ n. record f { name = n } ∷ map (stripped prefix) (map (placed prefix) files))
      (trim_prefix-append prefix f.name)
    ∙ ap (λ r. f ∷ r) (stripped-placed prefix files)

placed-Kept :
    (prefix : String) (files : List TarEntry)
    → All (λ e. is_left_out e.name ≡ false) files
    → Kept prefix (map (placed prefix) files)
placed-Kept prefix [] h = tt
placed-Kept prefix (f ∷ files) (k, ks) =
    (ap is_left_out (trim_prefix-append prefix f.name) ∙ k, placed-Kept prefix files ks)

-- no name has the prefix
abbrev pub Outside : String → List TarEntry → Type 0
Outside prefix entries =
    All (λ e. (strip_prefix prefix e.name ≡ none) × (is_left_out e.name ≡ false)) entries

stripped-Outside :
    (prefix : String) (entries : List TarEntry)
    → Outside prefix entries
    → (map (stripped prefix) entries ≡ entries) × Kept prefix entries
stripped-Outside prefix [] h = (refl, tt)
stripped-Outside prefix (e ∷ entries) ((n, l), hs) =
    let (a, b) = stripped-Outside prefix entries hs in
    (
      ap (λ n. record e { name = n } ∷ map (stripped prefix) entries)
            (trim_prefix-none prefix e.name n)
          ∙ ap (λ r. e ∷ r) a,
      (ap is_left_out (trim_prefix-none prefix e.name n) ∙ l, b),
    )

-- the same of an entry of the archive
abbrev pub placed_file : String → TarFile → TarFile
placed_file prefix f = record f { name = str_append prefix f.name }

read_tar_entries-eq :
    (archive : List TarFile)
    → read_tar_entries archive ≡ map read_entry (keep (λ f. f.is_regular) archive)
unfolding read_tar_entries
read_tar_entries-eq [] = refl
read_tar_entries-eq (f ∷ files) = elim (Bool-cases f.is_regular) [
  | inl e ↦ rw (e, read_tar_entries) (ap (λ r. read_entry f ∷ r) (read_tar_entries-eq files))
  | inr e ↦ rw (e, read_tar_entries) (read_tar_entries-eq files)
]

read-placed :
    (prefix : String) (files : List TarFile)
    → map read_entry (map (placed_file prefix) files) ≡ map (placed prefix) (map read_entry files)
read-placed prefix [] = refl
read-placed prefix (f ∷ files) =
    ap (λ r. placed prefix (read_entry f) ∷ r) (read-placed prefix files)

read-left_out :
    (files : List TarFile)
    → All (λ f. is_left_out f.name ≡ false) files
    → All (λ e. is_left_out e.name ≡ false) (map read_entry files)
read-left_out [] h = tt
read-left_out (f ∷ files) (k, ks) = (k, read-left_out files ks)

module _ (is_readme : String → Bool) (text_of : Bytes → String) where
  -- where no entry is left out, each loses the prefix
  write_entries-stripped :
      (prefix : String) (entries out : List TarEntry) (readme : String)
      → Kept prefix entries
      → (write_entries is_readme text_of prefix entries readme out).0
        ≡ out ++ map (stripped prefix) entries
  unfolding write_entries
  write_entries-stripped prefix [] out readme h = sym (append-nil out)
  write_entries-stripped prefix (e ∷ entries) out readme (l, ls) =
      rw (l, write_entries)
        (write_entries-stripped prefix entries (out ++ stripped prefix e ∷ []) _ ls
          ∙ append_assoc out (stripped prefix e ∷ []) (map (stripped prefix) entries))

  entries-placed :
      (prefix root : String) (e : TarEntry) (entries : List TarEntry)
      → prefix_of (str_append prefix e.name) root ≡ prefix
      → All (λ e. is_left_out e.name ≡ false) (e ∷ entries)
      → (readme : String) × (repackage_entries is_readme text_of
            (map (placed prefix) (e ∷ entries))
            root
          ≡ some (e ∷ entries, readme))
  unfolding repackage_entries
  entries-placed prefix root f files p h =
      let readme =
        (write_entries is_readme text_of prefix (map (placed prefix) (f ∷ files)) "" []).1 in
      (
        readme,
        ap some (
            ap (λ q. write_entries is_readme text_of q (map (placed prefix) (f ∷ files)) "" []) p
            ∙ ap (λ es. (es, readme))
                (write_entries-stripped prefix (map (placed prefix) (f ∷ files)) [] ""
                    (placed-Kept prefix (f ∷ files) h)
                  ∙ stripped-placed prefix (f ∷ files))),
      )

  -- The files of a module get the names that they have below the root of the stack back, in their
  -- order and with the first 10 MiB of their contents, from an archive whose regular files they are,
  -- below the prefix that the first of them and the root stand for.
  pub repackage_module-placed :
      (prefix root : String) (archive : List TarFile) (f : TarFile) (files : List TarFile)
      → keep (λ x. x.is_regular) archive ≡ map (placed_file prefix) (f ∷ files)
      → prefix_of (str_append prefix f.name) root ≡ prefix
      → All (λ x. is_left_out x.name ≡ false) (f ∷ files)
      → (readme : String) × (repackage_module is_readme text_of archive root
          ≡ some (map read_entry (f ∷ files), readme))
  unfolding repackage_module
  repackage_module-placed prefix root archive f files k p h =
      let (readme, e) =
        entries-placed prefix root (read_entry f) (map read_entry files) p
          (read-left_out (f ∷ files) h) in
      (
        readme,
        ap (λ es. repackage_entries is_readme text_of es root)
              (read_tar_entries-eq archive ∙ ap (map read_entry) k ∙ read-placed prefix (f ∷ files))
            ∙ e,
      )

  -- The archive of a stack whose root is ".", the default, keeps the names that the forge gave its
  -- files, with the top-level directory, where no name goes on with "./" after that directory.
  pub repackage_module-dot :
      (d : String) (archive : List TarFile) (e : TarEntry) (entries : List TarEntry)
      → read_tar_entries archive ≡ e ∷ entries
      → top_directory e.name ≡ some d
      → Outside (str_append d "./") (e ∷ entries)
      → (readme : String) × (repackage_module is_readme text_of archive "."
          ≡ some (e ∷ entries, readme))
  unfolding repackage_module repackage_entries trim_left trim_right
  repackage_module-dot d archive e entries r t h =
      let prefix = str_append d "./" in
      let (a, k) = stripped-Outside prefix (e ∷ entries) h in
      let readme = (write_entries is_readme text_of prefix (e ∷ entries) "" []).1 in
      (
        readme,
        ap (λ es. repackage_entries is_readme text_of es ".") r
            ∙ ap some (
                ap
                  (λ o.
                    write_entries is_readme text_of (str_append (or_empty o) "./") (e ∷ entries) ""
                      [])
                  t
                ∙ ap (λ es. (es, readme))
                    (write_entries-stripped prefix (e ∷ entries) [] "" k ∙ a)),
      )
