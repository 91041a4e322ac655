-- ===== src/Variables/Tests.antt =====
-- The theorems about containers on small ones.
use eirctl.Prelude.{◌≡◌, [], ◌∷◌, codes, text_eq, if◌then◌else◌, ◌||◌, some}
use eirctl.Variables.{str, Variables, from_map, merge, with, get, has_key}
use eirctl.Variables.Merge.{value, or_else, from_map-IsContainer, merge_assoc, get-with}

abbrev context : Variables
context = from_map ((codes "HOME", codes "/root") ∷ (codes "FOO", codes "context") ∷ [])

abbrev stage : Variables
stage = from_map ((codes "FOO", codes "stage") ∷ [])

abbrev task : Variables
task = from_map ((codes "BAR", codes "task") ∷ [])

merge_assoc_example :
    (value (merge (some (merge (some context) stage)) task) (codes "FOO")
      ≡ or_else
          (value context (codes "FOO"))
          (or_else (value stage (codes "FOO")) (value task (codes "FOO"))))
    × (value (merge (some context) (merge (some stage) task)) (codes "FOO")
        ≡ or_else
            (value context (codes "FOO"))
            (or_else (value stage (codes "FOO")) (value task (codes "FOO"))))
merge_assoc_example =
    merge_assoc context stage task (codes "FOO") (from_map-IsContainer _) (from_map-IsContainer _)
      (from_map-IsContainer _)

get-with_example :
    (get (with context (codes "FOO") (str (codes "new"))) (codes "HOME") ≡ (
      if text_eq (codes "FOO") (codes "HOME")
      then str (codes "new")
      else get context (codes "HOME")))
    × (has_key (with context (codes "FOO") (str (codes "new"))) (codes "HOME")
        ≡ (text_eq (codes "FOO") (codes "HOME") || has_key context (codes "HOME")))
get-with_example =
    get-with context (codes "FOO") (codes "HOME") (str (codes "new")) (from_map-IsContainer _)
