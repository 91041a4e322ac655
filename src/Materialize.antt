-- ===== src/Materialize.antt =====
-- scripts/materialize-sonar-source/main.go: the selection of Go files from a git tree that a pull
-- request controls, within fixed bounds.
pub mod Selected
pub mod Bounds
pub mod Tests
use eirctl.Prelude.{
  ℕ, zero, suc, ◌+◌, Bool, true, false, not, ◌&&◌, ◌||◌, List, [], ◌∷◌, ◌++◌, Option, none, some,
  Text, codes, elem, text_eq, has_prefix, contains, ◌==◌, ltb, leb, length, if◌then◌else◌, Result,
  ok, err, any,
}
use eirctl.Strings.{is_empty, has_suffix}

-- An `int64`.
pub data ℤ : Type 0 where
  pos negsuc : ℕ → ℤ

pub record TreeEntry : Type 0 where
  pub path : Text
  pub mode : Text
  pub type : Text
  pub sha : Text
  pub size : Option ℤ

pub record TreeResponse : Type 0 where
  pub sha : Text
  pub truncated : Bool
  pub tree : List TreeEntry

pub data TreeFault : Type 0 where
  truncated_tree tree_size no_go_source total_size file_count : TreeFault
  unsafe_path duplicate_path invalid_identity forbidden_mode invalid_size : Text → TreeFault

-- What is taken from libraries: valid UTF-8, `path.Clean`, control characters, the pattern of a full
-- SHA, and the sorting by path.
pub record Library : Type 0 where
  pub valid_utf8 : Text → Bool
  pub clean : Text → Text
  pub has_control : Text → Bool
  pub full_sha : Text → Bool
  pub sort : List TreeEntry → List TreeEntry

abbrev pub max_tree_entries : ℕ
max_tree_entries = 384

abbrev pub max_go_files : ℕ
max_go_files = 160

abbrev pub max_path_bytes : ℕ
max_path_bytes = 160

abbrev pub max_file_bytes : ℕ
max_file_bytes = 131072

abbrev pub max_total_bytes : ℕ
max_total_bytes = 1048576

-- `strings.Split(value, "/")`, where `segment` has been read.
unfoldable pub segments_from : (segment : Text) → Text → List Text
segments_from segment [] = segment ∷ []
segments_from segment (c ∷ s) = elim (c == b'/') [
  | true ↦ segment ∷ segments_from [] s
  | false ↦ segments_from (segment ++ c ∷ []) s
]

unfoldable pub is_traversal : Text → Bool
is_traversal segment =
    is_empty segment || text_eq segment (codes ".") || text_eq segment (codes "..")

-- Whether `validateTreePath` accepts the path.
unfoldable pub validate_tree_path : Library → Text → Bool
validate_tree_path lib value =
    not (is_empty value)
    && lib.valid_utf8 value
    && leb (length value) max_path_bytes
    && not (has_prefix value (codes "/"))
    && not (contains value (codes "\\"))
    && text_eq (lib.clean value) value
    && not (any is_traversal (segments_from [] value))
    && not (lib.has_control value)

-- Whether the entry is eligible; `seen` are the paths before it.
unfoldable pub classify_tree_entry : Library → List Text → TreeEntry → Result TreeFault Bool
classify_tree_entry lib seen entry =
    if not (validate_tree_path lib entry.path)
    then err (unsafe_path entry.path)
    else if elem entry.path seen
    then err (duplicate_path entry.path)
    else if not (lib.full_sha entry.sha)
    then err (invalid_identity entry.path)
    else if text_eq entry.type (codes "tree") && text_eq entry.mode (codes "040000")
    then ok false
    else if not (text_eq entry.type (codes "blob"))
        || (not (text_eq entry.mode (codes "100644")) && not (text_eq entry.mode (codes "100755")))
    then err (forbidden_mode entry.path)
    else ok (text_eq entry.mode (codes "100644") && has_suffix entry.path (codes ".go"))

-- The new total; a file of no size, a negative size or too large a size is refused.
unfoldable pub account_go_entry : TreeEntry → (total selected : ℕ) → Result TreeFault ℕ
account_go_entry entry total selected = elim entry.size [
  | none ↦ err (invalid_size entry.path)
  | some (negsuc n) ↦ err (invalid_size entry.path)
  | some (pos size) ↦
      if ltb max_file_bytes size
      then err (invalid_size entry.path)
      else if ltb max_total_bytes (total + size)
      then err total_size
      else if ltb max_go_files (selected + 1)
      then err file_count
      else ok (total + size)
]

-- The loop of `validateTree`.
unfoldable pub select_entries :
    Library
    → (seen : List Text) → (selected : List TreeEntry) → (total : ℕ) → List TreeEntry
    → Result TreeFault (List TreeEntry × ℕ)
select_entries lib seen selected total [] = ok (selected, total)
select_entries lib seen selected total (entry ∷ entries) =
    elim (classify_tree_entry lib seen entry) [
      | err fault ↦ err fault
      | ok false ↦ select_entries lib (entry.path ∷ seen) selected total entries
      | ok true ↦ elim (account_go_entry entry total (length selected)) [
        | err fault ↦ err fault
        | ok sum ↦ select_entries lib (entry.path ∷ seen) (selected ++ entry ∷ []) sum entries
      ]
    ]

unfoldable pub validate_tree : Library → TreeResponse → Result TreeFault (List TreeEntry × ℕ)
validate_tree lib tree =
    if tree.truncated
    then err truncated_tree
    else if length tree.tree == 0 || ltb max_tree_entries (length tree.tree)
    then err tree_size
    else elim (select_entries lib [] [] 0 tree.tree) [
      | err fault ↦ err fault
      | ok (selected, total) ↦
          if length selected == 0 then err no_go_source else ok (lib.sort selected, total)
    ]
