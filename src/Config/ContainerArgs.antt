-- ===== src/Config/ContainerArgs.antt =====
-- `checkForbiddenContainerArgs` of internal/config/context.go: the arguments for a container,
-- without those that are forbidden.
pub mod Sanitised
pub mod Tests
use eirctl.Prelude.{
  ℕ, suc, ◌==◌, Bool, true, false, List, [], ◌∷◌, ◌++◌, Option, none, some, Text, codes, contains,
  text_eq, if◌then◌else◌, ◌||◌,
}

abbrev pub forbidden_container_args_pairs : List Text
forbidden_container_args_pairs = codes "docker.sock:" ∷ []

abbrev pub forbidden_container_args_switches : List Text
forbidden_container_args_switches = codes "--privileged" ∷ []

-- `slices.Index`, which counts from `i`: the first place.
unfoldable pub index_of : ℕ → Text → List Text → Option ℕ
index_of i s [] = none
index_of i s (x ∷ xs) = if text_eq x s then some i else index_of (suc i) s xs

unfoldable pub some_index : Option ℕ → List ℕ → List ℕ
some_index none idxs = idxs
some_index (some i) idxs = i ∷ idxs

-- The arguments that hold the text, each by the first place where it stands.
unfoldable pub pair_idxs : Text → (cargs todo : List Text) → List ℕ
pair_idxs pair cargs [] = []
pair_idxs pair cargs (s ∷ todo) =
    let rest = pair_idxs pair cargs todo in
    if contains s pair then some_index (index_of 0 s cargs) rest else rest

unfoldable pub pairs_idxs : List Text → List Text → List ℕ
pairs_idxs [] cargs = []
pairs_idxs (pair ∷ pairs) cargs = pair_idxs pair cargs cargs ++ pairs_idxs pairs cargs

unfoldable pub switch_idxs : List Text → List Text → List ℕ
switch_idxs [] cargs = []
switch_idxs (switch ∷ switches) cargs =
    some_index (index_of 0 switch cargs) (switch_idxs switches cargs)

unfoldable pub elem_idx : ℕ → List ℕ → Bool
elem_idx i [] = false
elem_idx i (j ∷ idxs) = j == i || elem_idx i idxs

-- The arguments, counted from `i`, whose place is not listed.
unfoldable pub unlisted : List ℕ → ℕ → List Text → List Text
unlisted idxs i [] = []
unlisted idxs i (arg ∷ cargs) =
    let rest = unlisted idxs (suc i) cargs in if elem_idx i idxs then rest else arg ∷ rest

-- `verbotenArgIdx`
unfoldable pub verboten_arg_idx : List Text → List ℕ
verboten_arg_idx cargs =
    pairs_idxs forbidden_container_args_pairs cargs
    ++ switch_idxs forbidden_container_args_switches cargs

unfoldable pub check_forbidden_container_args : List Text → List Text
check_forbidden_container_args [] = []
check_forbidden_container_args (c ∷ cs) = unlisted (verboten_arg_idx (c ∷ cs)) 0 (c ∷ cs)
