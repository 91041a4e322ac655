-- ===== src/Config/ContainerArgs/Tests.antt =====
-- Arguments of a container, and the theorem about them on an example.
use eirctl.Prelude.{
  ◌≡◌, refl, not, List, [], ◌∷◌, Text, codes, has_prefix, contains, text_eq, filter_by, Distinct,
  arith,
}
use eirctl.Config.ContainerArgs.{
  index_of, some_index, pair_idxs, pairs_idxs, switch_idxs, elem_idx, unlisted, verboten_arg_idx,
  check_forbidden_container_args,
}
use eirctl.Config.ContainerArgs.Sanitised.{
  is_forbidden, without_first, check_forbidden_container_args_lem,
  check_forbidden_container_args-Distinct,
}

unfoldable sanitising : Unit {0}
unfolding check_forbidden_container_args verboten_arg_idx unlisted elem_idx switch_idxs pairs_idxs
    pair_idxs some_index index_of text_eq contains has_prefix
sanitising = tt

abbrev privileged : Text
privileged = codes "--privileged"

abbrev socket : Text
socket = codes "-v /var/run/docker.sock:/var/run/docker.sock"

-- A switch that is given twice is dropped once.
check_forbidden_container_args_twice :
    check_forbidden_container_args (privileged ∷ socket ∷ privileged ∷ socket ∷ [])
    ≡ privileged ∷ socket ∷ []
unfolding sanitising
check_forbidden_container_args_twice = refl

abbrev cargs : List Text
cargs = codes "-v" ∷ socket ∷ privileged ∷ codes "-u 1000" ∷ []

cargs_once : Distinct cargs
cargs_once = ground arith

check_forbidden_container_args-Distinct_example :
    check_forbidden_container_args cargs ≡ filter_by (λ s. not (is_forbidden s)) cargs
check_forbidden_container_args-Distinct_example =
    check_forbidden_container_args-Distinct cargs cargs_once

check_forbidden_container_args_lem_example :
    check_forbidden_container_args (privileged ∷ socket ∷ privileged ∷ [])
    ≡ without_first [] (privileged ∷ socket ∷ privileged ∷ [])
check_forbidden_container_args_lem_example =
    check_forbidden_container_args_lem (privileged ∷ socket ∷ privileged ∷ [])
