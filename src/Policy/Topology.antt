-- ===== src/Policy/Topology.antt =====
-- What the checks of the fixed topology ask of a job and its steps. The children hold what they
-- ask of artifacts, and the checks of the single workflows.
pub mod Artifacts
pub mod Debug
pub mod Sonar
pub mod Repository
pub mod Tests
use eirctl.Prelude.{
  ℕ, zero, suc, Bool, true, false, not, ◌&&◌, ◌||◌, List, [], ◌∷◌, Option, none, some, Text, codes,
  Map, lookup, any, elem, text_eq, has_prefix, contains, ltb, ◌==◌, length, if◌then◌else◌, Result,
  ok, err,
}
use eirctl.Variables.{Any, null}
use eirctl.Strings.{is_empty, to_lower, trim_space, fields}
use eirctl.Github.{GithubStep, GithubJob, GithubConcurrency}
use eirctl.Policy.{Library, Workflow, PolicyFault, missing_workflow, scalar_value, text_at}
use eirctl.Policy.Steps.{checkout_action, action_uses, any_value, contains_one}
use eirctl.Policy.Events.{EffectiveRootEvent, resolve_effective_root_events, events_at}
use eirctl.Policy.Authority.{has_secret_in_map}

abbrev pub persist_credentials : Text
persist_credentials = codes "persist-credentials"

abbrev pub download_artifact_action : Text
download_artifact_action = codes "actions/download-artifact"

abbrev pub debug_request_workflow_path : Text
debug_request_workflow_path = codes ".github/workflows/debug-build-request.yml"

abbrev pub debug_builder_workflow_path : Text
debug_builder_workflow_path = codes ".github/workflows/debug-build.yml"

-- `m[k]` of a map of any values, which is nil where `m` lacks the key.
unfoldable pub any_at : Text → Map Any → Any
any_at k m = elim (lookup k m) [ none ↦ null | some v ↦ v ]

-- `path == expected` of a value of a map.
unfoldable pub text_at_is : Text → Map Text → Text → Bool
text_at_is k m expected = text_eq (text_at k m) expected

unfoldable pub required_workflow : Map Workflow → Text → Result PolicyFault Workflow
required_workflow ws path = elim (lookup path ws) [
  | none ↦ err (missing_workflow path)
  | some w ↦ ok w
]

-- The builder is started by one event alone, the comment on a pull request.
unfoldable pub is_debug_caller : List EffectiveRootEvent → Bool
is_debug_caller (event ∷ []) =
    text_eq event.name (codes "issue_comment")
    && text_eq event.source_path debug_request_workflow_path
is_debug_caller events = false

unfoldable pub has_only_effective_debug_caller : Map Workflow → Bool
has_only_effective_debug_caller ws = elim (resolve_effective_root_events ws) [
  | none ↦ false
  | some events ↦ is_debug_caller (events_at debug_builder_workflow_path events)
]

unfoldable pub group_of : Option GithubConcurrency → Text
group_of none = []
group_of (some concurrency) = concurrency.group

unfoldable pub concurrency_group : GithubJob → Text
concurrency_group job = group_of job.concurrency

unfoldable pub workflow_concurrency_group : Workflow → Text
workflow_concurrency_group w = group_of w.definition.concurrency

-- The first step that passes a test, by its index.
unfoldable pub step_index : (GithubStep → Bool) → List GithubStep → Option ℕ
step_index p [] = none
step_index p (step ∷ steps) =
    if p step then some 0 else elim (step_index p steps) [ none ↦ none | some i ↦ some (suc i) ]

-- The steps behind an index.
unfoldable pub steps_behind : ℕ → List GithubStep → List GithubStep
steps_behind i [] = []
steps_behind zero (step ∷ steps) = steps
steps_behind (suc i) (step ∷ steps) = steps_behind i steps

unfoldable pub step_at : ℕ → List GithubStep → Option GithubStep
step_at i [] = none
step_at zero (step ∷ steps) = some step
step_at (suc i) (step ∷ steps) = step_at i steps

unfoldable pub action_index : GithubJob → Text → Option ℕ
action_index job action = step_index (λ step. action_uses step.uses action) job.steps

unfoldable pub has_checkout : GithubJob → Bool
has_checkout job = elim (action_index job checkout_action) [ none ↦ false | some i ↦ true ]

unfoldable pub checkout_count : List GithubStep → ℕ
checkout_count [] = 0
checkout_count (step ∷ steps) =
    let rest = checkout_count steps in
    if action_uses step.uses checkout_action then suc rest else rest

unfoldable pub is_protected_base_checkout : GithubStep → Bool
is_protected_base_checkout step =
    action_uses step.uses checkout_action
    && text_at_is (codes "ref") step.with []
    && text_at_is (codes "fetch-depth") step.with (codes "1")
    && text_at_is persist_credentials step.with (codes "false")

unfoldable pub has_verified_static_main_checkout : Library → GithubJob → Bool
has_verified_static_main_checkout lib job = elim job.steps [
  | checkout ∷ verify ∷ rest ↦
      action_uses checkout.uses checkout_action
      && text_at_is (codes "ref") checkout.with (codes "main")
      && text_at_is persist_credentials checkout.with (codes "false")
      && text_eq verify.name (codes "Verify the validated workflow-run revision")
      && length verify.env == 1
      && text_eq (scalar_value lib (any_at (codes "VALIDATED_HEAD_SHA") verify.env))
          (codes "${{ github.event.workflow_run.head_sha }}")
      && text_eq (trim_space verify.run)
          (codes "test \"$(git rev-parse HEAD)\" = \"$VALIDATED_HEAD_SHA\"")
  | _ ↦ false
]

unfoldable pub contains_cache : GithubJob → Bool
contains_cache job = any (λ step. has_prefix step.uses (codes "actions/cache@")) job.steps

unfoldable pub has_local_action : GithubJob → Bool
has_local_action job = any (λ step. has_prefix step.uses (codes "./")) job.steps

unfoldable pub job_uses : GithubJob → Text → Bool
job_uses job prefix = any (λ step. has_prefix step.uses prefix) job.steps

unfoldable pub step_with_contains : GithubJob → (uses_prefix key expected : Text) → Bool
step_with_contains job uses_prefix key expected =
    any (λ step. has_prefix step.uses uses_prefix && contains (text_at key step.with) expected)
      job.steps

unfoldable pub checkout_index_for_ref : GithubJob → Text → Option ℕ
checkout_index_for_ref job ref =
    step_index
      (λ step.
        has_prefix step.uses (codes "actions/checkout@") && text_at_is (codes "ref") step.with ref)
      job.steps

unfoldable pub checkout_disables_credentials : GithubJob → Option ℕ → Bool
checkout_disables_credentials job none = false
checkout_disables_credentials job (some i) = elim (step_at i job.steps) [
  | none ↦ false
  | some step ↦ text_at_is persist_credentials step.with (codes "false")
]

-- `containsString` and `containsNeed`
unfoldable pub contains_string : List Text → Text → Bool
contains_string values expected = elem expected values

unfoldable pub is_github_hosted : GithubJob → Bool
is_github_hosted job = elim job.runs_on [
  | runner ∷ [] ↦
      has_prefix runner (codes "ubuntu-")
      && not (contains_string (runner ∷ []) (codes "self-hosted"))
  | _ ↦ false
]

-- The script or the command of a step, by the field that holds it.
unfoldable pub field_of : GithubStep → Text → Text
field_of step field = if text_eq field (codes "run") then step.run else text_at field step.with

-- The first step of the name has a field with the digest.
unfoldable pub step_digest_matches : Library → List GithubStep → (name field expected : Text) → Bool
step_digest_matches lib [] name field expected = false
step_digest_matches lib (step ∷ steps) name field expected =
    let rest = step_digest_matches lib steps name field expected in
    if text_eq step.name name then text_eq (lib.digest (field_of step field)) expected else rest

unfoldable pub job_run_contains : GithubJob → (name expected : Text) → Bool
job_run_contains job name expected =
    any (λ step. (is_empty name || text_eq step.name name) && contains step.run expected) job.steps

unfoldable pub github_script_index_containing : GithubJob → Text → Option ℕ
github_script_index_containing job expected =
    step_index
      (λ step.
        has_prefix step.uses (codes "actions/github-script@")
        && contains (text_at (codes "script") step.with) expected)
      job.steps

unfoldable pub job_has_environment : GithubJob → Bool
job_has_environment job = not (is_empty job.environment)

unfoldable pub has_checkout_without_credentials : GithubJob → Bool
has_checkout_without_credentials job =
    any
      (λ step.
        has_prefix step.uses (codes "actions/checkout@")
        && text_at_is persist_credentials step.with (codes "false"))
      job.steps

-- Both indices are there, and the first is not behind the second.
unfoldable pub stands_before : Option ℕ → Option ℕ → Bool
stands_before (some i) (some j) = not (ltb j i)
stands_before i j = false

-- Every marker stands in the text.
unfoldable pub contains_all : List Text → Text → Bool
contains_all [] s = true
contains_all (marker ∷ markers) s = contains s marker && contains_all markers s
