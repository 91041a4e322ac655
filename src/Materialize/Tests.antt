-- ===== src/Materialize/Tests.antt =====
-- A tree of three entries, of which one is a Go file.
use eirctl.Prelude.{
  ◌≡◌, refl, ◌≤◌, ◌<◌, true, false, List, [], ◌∷◌, none, some, codes, In, All, Distinct, ok, err,
  length, text_eq, elem, has_prefix, contains,
}
use eirctl.Strings.{is_empty, has_suffix}
use eirctl.Materialize.{
  pos, negsuc, TreeEntry, TreeResponse, Library, max_go_files, max_total_bytes, invalid_size,
  duplicate_path, segments_from, is_traversal, validate_tree_path, classify_tree_entry,
  account_go_entry, select_entries, validate_tree,
}
use eirctl.Materialize.Selected.{sum_of, paths, IsEligible}
use eirctl.Materialize.Bounds.{validate_tree-bounds}

unfoldable selecting : Unit {0}
unfolding segments_from is_traversal validate_tree_path classify_tree_entry account_go_entry
    select_entries validate_tree is_empty has_suffix text_eq elem has_prefix contains
selecting = tt

-- A single file is sorted already.
abbrev lib : Library
lib = record {
  valid_utf8 = λ path. true;
  clean = λ path. path;
  has_control = λ path. false;
  full_sha = λ sha. true;
  sort = λ entries. entries;
}

abbrev folder : TreeEntry
folder = record {
  path = codes "cmd";
  mode = codes "040000";
  type = codes "tree";
  sha = [];
  size = none;
}

abbrev main_go : TreeEntry
main_go = record {
  path = codes "cmd/main.go";
  mode = codes "100644";
  type = codes "blob";
  sha = [];
  size = some (pos 120);
}

abbrev readme : TreeEntry
readme = record {
  path = codes "README";
  mode = codes "100755";
  type = codes "blob";
  sha = [];
  size = none;
}

abbrev tree : List TreeEntry → TreeResponse
tree entries = record { sha = []; truncated = false; tree = entries }

accepted : validate_tree lib (tree (folder ∷ main_go ∷ readme ∷ [])) ≡ ok (main_go ∷ [], 120)
unfolding selecting
accepted = refl

-- A path may not come twice, and a size may not be negative.
repeated : validate_tree lib (tree (main_go ∷ main_go ∷ [])) ≡ err (duplicate_path main_go.path)
unfolding selecting
repeated = refl

negative :
    validate_tree lib (tree (record main_go { size = some (negsuc 0) } ∷ []))
    ≡ err (invalid_size main_go.path)
unfolding selecting
negative = refl

validate_tree-bounds_example :
    (selected : List TreeEntry) × ((main_go ∷ []) ≡ lib.sort selected)
    × (0 < length selected)
    × (length selected ≤ max_go_files)
    × (120 ≡ sum_of selected)
    × (120 ≤ max_total_bytes)
    × Distinct (paths selected)
    × All (IsEligible lib) selected
    × ((entry : TreeEntry)
        → In entry selected
        → In entry (tree (folder ∷ main_go ∷ readme ∷ [])).tree)
validate_tree-bounds_example =
    validate_tree-bounds lib (tree (folder ∷ main_go ∷ readme ∷ [])) (main_go ∷ []) 120 accepted
