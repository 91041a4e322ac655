-- ===== src/Loader/Store.antt =====
-- The hash of an import, and the storing of an imported file under the project's root.
use eirctl.Prelude.{
  Bool, not, [], ◌∷◌, ◌++◌, Option, none, some, Text, codes, Result, ok, err, if◌then◌else◌,
  text_eq, has_prefix, ◌==◌,
}
use eirctl.Strings.{is_empty}
use eirctl.Config.Definitions.{ImportEntry}
use eirctl.Loader.{
  LoadState, LoadFault, hash_format, hash_algorithm, hash_mismatch, path_traversal, mkdir_failed,
  create_failed, copy_failed, read_failed, Stream, Host, LoadOutcome,
}

unfoldable pub is_file_import : ImportEntry → Bool
is_file_import entry = not (is_empty entry.dest)

-- `strings.SplitN(s, ":", 2)`, if there are two parts.
unfoldable pub split_colon : Text → Option (Text × Text)
split_colon [] = none
split_colon (c ∷ s) =
    if c == b':'
    then some ([], s)
    else elim (split_colon s) [ none ↦ none | some (before, behind) ↦ some (c ∷ before, behind) ]

-- The digest that the entry asks for; `none` if it has no hash. SHA-256 is the only algorithm.
unfoldable pub has_hash : ImportEntry → Result LoadFault (Option Text)
has_hash entry = if is_empty entry.hash then ok none else elim (split_colon entry.hash) [
  | none ↦ err (hash_format entry.hash)
  | some (typ, val) ↦
      if text_eq typ (codes "sha256") then ok (some val) else err (hash_algorithm typ)
]

unfoldable pub verify_hash : Host → (content expected : Text) → Result LoadFault (Unit {0})
verify_hash host content expected =
    if text_eq (host.digest content) expected then ok tt else err (hash_mismatch expected)

unfoldable pub clean_dest : Host → (base_dir dest : Text) → Text
clean_dest host base_dir dest =
    if host.is_abs dest then host.clean dest else host.clean (host.join base_dir dest)

-- A copy that fails leaves a file with what was written until then.
unfoldable pub store_imported_file :
    Host → (base_dir : Text) → ImportEntry → Stream → LoadState → LoadOutcome (Unit {0})
store_imported_file host base_dir entry content s =
    let dest = clean_dest host base_dir entry.dest in
    if not (has_prefix dest (host.clean base_dir))
    then (s, err (path_traversal entry.dest))
    else if not (host.can_make_dir (host.dir_of dest))
    then (s, err (mkdir_failed dest))
    else if not (host.can_create dest)
    then (s, err (create_failed dest))
    else let copied = host.copy dest content in
      (
        record s {
          writes =
              s.writes
              ++ record {
                base_dir = base_dir;
                entry = entry;
                dest = dest;
                content = copied.written;
                is_whole = not copied.is_failed;
              }
                ∷ [];
        },
        if copied.is_failed then err (copy_failed dest) else ok tt,
      )

-- With a hash the content is read as a whole first.
unfoldable pub write_imported_file :
    Host → (base_dir : Text) → ImportEntry → Stream → LoadState → LoadOutcome (Unit {0})
write_imported_file host base_dir entry content s = elim (has_hash entry) [
  | err fault ↦ (s, err fault)
  | ok none ↦ store_imported_file host base_dir entry content s
  | ok (some expected) ↦
      if content.is_broken
      then (s, err (read_failed entry.src))
      else elim (verify_hash host content.text expected) [
        | err fault ↦ (s, err fault)
        | ok passed ↦ store_imported_file host base_dir entry content s
      ]
]
