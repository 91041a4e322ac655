-- ===== src/Policy/Authority.antt =====
-- What a job may do: the events that can write the caches of the default branch, the runners that
-- may persist, and where a job gets secrets or the right to write.
pub mod Unprivileged
use eirctl.Prelude.{
  Bool, true, false, not, ◌&&◌, ◌||◌, List, [], ◌∷◌, Option, none, some, Text, codes, Map, lookup,
  any, elem, text_eq, has_prefix, contains, if◌then◌else◌, ltb, length,
}
use eirctl.Variables.{Any, null, str}
use eirctl.Strings.{is_empty, trim_space, trim_prefix, single_stars}
use eirctl.Github.{GithubStep, GithubJob, GithubContainer, job_has}
use eirctl.Policy.{Library, Workflow, Permissions, scalar_value}
use eirctl.Policy.Steps.{any_value}
use eirctl.Policy.Events.{EffectiveRootEvent}

abbrev secret_expression_marker : Text
secret_expression_marker = codes "secrets."

-- A pattern of branches against `main`; `none` on a malformed pattern.
unfoldable pub matches_main : Library → Text → Option Bool
matches_main lib pattern = lib.match (single_stars pattern) (codes "main")

-- The patterns to include, from first to last, where a later one overrules those before it.
unfoldable pub includes_main : Library → Bool → List Text → Bool
includes_main lib included [] = included
includes_main lib included (pattern ∷ patterns) =
    let negative = has_prefix pattern (codes "!") in
    elim (matches_main lib (trim_prefix pattern (codes "!"))) [
      | none ↦ true
      | some matched ↦ includes_main lib (if matched then not negative else included) patterns
    ]

-- The patterns to leave out; a malformed one is taken not to leave `main` out.
unfoldable pub ignores_main : Library → Bool → List Text → Bool
ignores_main lib ignored [] = ignored
ignores_main lib ignored (pattern ∷ patterns) = elim (matches_main lib pattern) [
  | none ↦ false
  | some matched ↦ ignores_main lib (if matched then true else ignored) patterns
]

unfoldable pub push_can_target_default_branch : Library → Workflow → Bool
push_can_target_default_branch lib w = elim w.definition.on [
  | none ↦ false
  | some events ↦
      if ltb 0 (length events.push.branches)
      then includes_main lib false events.push.branches
      else not (ignores_main lib false events.push.branches_ignore)
]

abbrev pub known_read_only_root_events : List Text
known_read_only_root_events =
    codes "pull_request"
    ∷ codes "pull_request_target"
    ∷ codes "issue_comment"
    ∷ codes "workflow_run"
    ∷ []

abbrev pub cache_writing_events : List Text
cache_writing_events =
    codes "workflow_dispatch"
    ∷ codes "repository_dispatch"
    ∷ codes "delete"
    ∷ codes "registry_package"
    ∷ codes "page_build"
    ∷ codes "schedule"
    ∷ []

unfoldable pub event_writes_default_branch_cache : Library → Workflow → Text → Bool
event_writes_default_branch_cache lib w event =
    if elem event cache_writing_events
    then true
    else if text_eq event (codes "push")
    then push_can_target_default_branch lib w
    else if text_eq event (codes "workflow_call")
    then false
    else not (elem event known_read_only_root_events)

unfoldable pub event_uses_protected_default_branch_source : Library → Workflow → Text → Bool
event_uses_protected_default_branch_source lib w event =
    if text_eq event (codes "pull_request")
    then false
    else if text_eq event (codes "push")
    then push_can_target_default_branch lib w
    else true

unfoldable pub runner_may_persist : GithubJob → Bool
runner_may_persist job = elim job.runs_on [
  | runner ∷ [] ↦
      not (has_prefix runner (codes "ubuntu-"))
      && not (has_prefix runner (codes "windows-"))
      && not (has_prefix runner (codes "macos-"))
  | runners ↦ ltb 0 (length runners)
]

unfoldable pub has_secret_in_string_map : Map Text → Bool
has_secret_in_string_map values =
    any_value (λ value. contains value secret_expression_marker) values

unfoldable pub has_secret_in_map : Library → Map Any → Bool
has_secret_in_map lib values =
    any_value (λ value. contains (scalar_value lib value) secret_expression_marker) values

unfoldable pub step_has_secret_reference : Library → GithubStep → Bool
step_has_secret_reference lib step =
    contains step.run secret_expression_marker
    || contains step.uses secret_expression_marker
    || has_secret_in_string_map step.with
    || has_secret_in_map lib step.env

unfoldable pub has_secret_reference : Library → GithubJob → Bool
has_secret_reference lib job = any (step_has_secret_reference lib) job.steps

unfoldable pub job_secrets_configured : GithubJob → Bool
job_secrets_configured job =
    if not (job_has job (codes "secrets")) then false else elim job.secrets [
      | null ↦ false
      | str value ↦ not (is_empty (trim_space value))
      | _ ↦ true
    ]

-- `containsSecretMarker` of a container, which is a pointer, and of the services.
unfoldable pub container_has_secret_marker : Library → Option GithubContainer → Bool
container_has_secret_marker lib none = false
container_has_secret_marker lib (some container) =
    contains (lib.print_container container) secret_expression_marker

unfoldable pub effective_permissions : Workflow → GithubJob → Permissions
effective_permissions w job =
    if job_has job (codes "permissions") then job.permissions else w.definition.permissions

unfoldable pub grants_write : Permissions → Bool
grants_write [] = false
grants_write ((name, value) ∷ permissions) =
    (text_eq value (codes "write")
      || (text_eq name (codes "id-token") && not (text_eq value (codes "none"))))
    || grants_write permissions

unfoldable pub job_has_repository_or_secret_privilege : Library → Workflow → GithubJob → Bool
job_has_repository_or_secret_privilege lib w job =
    grants_write (effective_permissions w job)
    || not (is_empty job.environment)
    || has_secret_in_map lib w.definition.env
    || has_secret_in_map lib job.env
    || has_secret_in_string_map job.with
    || has_secret_reference lib job
    || job_secrets_configured job
    || container_has_secret_marker lib job.container
    || contains (lib.print_services job.services) secret_expression_marker

pub record JobAuthority : Type 0 where
  pub protected_default_branch_source : Bool
  pub repository_or_secret_privilege : Bool
  pub persistent_runner : Bool
  pub default_branch_cache_write : Bool

-- The workflow that declares the event, or the one that runs.
unfoldable pub source_of : Map Workflow → Workflow → EffectiveRootEvent → Workflow
source_of ws w event = elim (lookup event.source_path ws) [ none ↦ w | some source ↦ source ]

unfoldable pub add_event :
    Library → Map Workflow → Workflow → EffectiveRootEvent → JobAuthority → JobAuthority
add_event lib ws w event authority =
    let source = source_of ws w event in
    record authority {
      protected_default_branch_source =
          authority.protected_default_branch_source
          || event_uses_protected_default_branch_source lib source event.name;
      default_branch_cache_write =
          authority.default_branch_cache_write
          || event_writes_default_branch_cache lib source event.name;
    }

unfoldable pub add_events :
    Library → Map Workflow → Workflow → List EffectiveRootEvent → JobAuthority → JobAuthority
add_events lib ws w [] authority = authority
add_events lib ws w (event ∷ events) authority =
    add_events lib ws w events (add_event lib ws w event authority)

unfoldable pub authority_for_job :
    Library → Map Workflow → Workflow → GithubJob → List EffectiveRootEvent → JobAuthority
authority_for_job lib ws w job events = add_events lib ws w events (record {
  protected_default_branch_source = false;
  repository_or_secret_privilege = job_has_repository_or_secret_privilege lib w job;
  persistent_runner = runner_may_persist job;
  default_branch_cache_write = false;
})
