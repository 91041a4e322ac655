-- ===== src/Policy.antt =====
-- scripts/check-workflow-policy/main.go: the security policy for the repository's own workflows.
-- The children hold its parts: what a step does, which events reach a workflow, what a job may
-- do, the checks on each of these, and the fixed topology of some workflows.
pub mod Steps
pub mod Events
pub mod Authority
pub mod Permitted
pub mod Flow
pub mod Checks
pub mod Topology
pub mod Tests
use eirctl.Prelude.{
  if◌then◌else◌, ℕ, Bool, List, [], ◌∷◌, Option, none, some, Text, codes, Map, lookup,
}
use eirctl.Variables.{Any, null, str}
use eirctl.Github.{GithubWorkflow, GithubContainer, GithubJob}

pub record Workflow : Type 0 where
  pub path : Text
  pub definition : GithubWorkflow

-- What the checks take from libraries: the printing of a value, of a container
-- and of the services by `fmt`, the
-- hexadecimal SHA-256 digest, and `filepath.Match`, which may refuse a pattern.
pub record Library : Type 0 where
  pub show : Any → Text
  pub print_container : GithubContainer → Text
  pub print_services : Map GithubContainer → Text
  pub digest : Text → Text
  pub match : (pattern name : Text) → Option Bool

-- What the checks refuse.
pub data PolicyFault : Type 0 where
  unreadable_directory : PolicyFault
  unreadable : Text → PolicyFault
  invalid_yaml : Text → PolicyFault
  needs_jobs : Text → PolicyFault
  no_workflow_files : PolicyFault
  unexpected_workflow_permissions : Text → PolicyFault
  unexpected_job_permissions : (path job : Text) → PolicyFault
  unpinned_docker_action : (path uses : Text) → PolicyFault
  unpinned_action : (path uses : Text) → PolicyFault
  dangerous_checkout : (path job : Text) → PolicyFault
  privileged_reusable_call : (path job : Text) → PolicyFault
  executes_with_cache_write : (path job : Text) → PolicyFault
  executes_with_privilege : (path job : Text) → PolicyFault
  executes_on_persistent_runner : (path job : Text) → PolicyFault
  missing_workflow : Text → PolicyFault
  topology : Text → PolicyFault
  out_of_rounds : PolicyFault

-- An `error` of Go: `none` is nil.
abbrev pub Error : Type 0
Error = Option PolicyFault

-- The first error of a sequence of checks.
infixr 4 ◌then◌
abbrev pub ◌then◌ : Error → Error → Error
none then next = next
some fault then next = some fault

abbrev pub first_error {ℓ} : {A : Type ℓ} → (A → Error) → List A → Error
first_error check [] = none
first_error check (x ∷ xs) = check x then first_error check xs

abbrev pub fail_if : Bool → PolicyFault → Error
fail_if refused fault = if refused then some fault else none

abbrev pub Permissions : Type 0
Permissions = Map Text

unfoldable pub scalar_value : Library → Any → Text
scalar_value lib null = []
scalar_value lib (str text) = text
scalar_value lib value = lib.show value

-- `m[k]`, which is the empty text where `m` lacks the key.
unfoldable pub text_at : Text → Map Text → Text
text_at k m = elim (lookup k m) [ none ↦ [] | some v ↦ v ]

abbrev pub jobs_of : Workflow → Map GithubJob
jobs_of w = w.definition.jobs.values
