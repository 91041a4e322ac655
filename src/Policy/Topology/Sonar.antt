-- ===== src/Policy/Topology/Sonar.antt =====
-- The workflow that analyses the source of a pull request with SonarCloud: seven reviewed steps.
pub mod Steps
pub mod Token
pub mod Run
pub mod Scope
use eirctl.Prelude.{
  ℕ, zero, suc, Bool, true, false, not, ◌&&◌, ◌||◌, List, [], ◌∷◌, ◌++◌, Option, none, some, Text,
  codes, Map, lookup, text_eq, contains, ltb, ◌==◌, length, if◌then◌else◌, Result, ok, err, ◌>>=◌,
}
use eirctl.Strings.{is_empty, trim_space, normalize_spaces, join_words, remove_first}
use eirctl.Github.{GithubStep, GithubJob, GithubWorkflow, GithubTriggerEvents, job_has}
use eirctl.Policy.{
  Library, Workflow, PolicyFault, topology, Error, ◌then◌, fail_if, scalar_value, text_at, jobs_of,
}
use eirctl.Policy.Steps.{checkout_action, action_uses, any_value}
use eirctl.Policy.Authority.{has_secret_in_map}
use eirctl.Policy.Permitted.{same_permissions, read_contents}
use eirctl.Policy.Flow.{has_trigger}
use eirctl.Policy.Topology.{
  persist_credentials, download_artifact_action, any_at, text_at_is, required_workflow,
  concurrency_group, checkout_count, contains_cache, has_local_action, contains_all,
}

unfoldable only_workflow : Option GithubTriggerEvents → Text → Bool
only_workflow none name = false
only_workflow (some events) name = elim events.workflow_run.workflows [
  | workflow ∷ [] ↦ text_eq workflow name
  | _ ↦ false
]

unfoldable pub validate_trusted_sonar_workflow_envelope : Workflow → Error
unfolding only_workflow
validate_trusted_sonar_workflow_envelope w =
    fail_if
      (not (length (jobs_of w) == 1)
        || not (has_trigger w (codes "workflow_run"))
        || not (only_workflow w.definition.on (codes "Lint and Test"))
        || not (same_permissions w.definition.permissions read_contents))
      (topology (codes "trusted sonar: envelope"))

abbrev trusted_sonar_expected_concurrency : Text
trusted_sonar_expected_concurrency =
    codes
      "sonar-pr-${{ github.event.workflow_run.pull_requests[0].number || format('{0}-{1}', github.event.workflow_run.head_repository.id, github.event.workflow_run.head_branch) }}"

unfoldable is_trusted_sonar_job : GithubJob → Bool
is_trusted_sonar_job job =
    is_empty job.environment
    && not (job_has job (codes "permissions"))
    && not (job_has job (codes "container"))
    && not (job_has job (codes "services"))
    && contains job.condition (codes "github.event.workflow_run.conclusion == 'success'")
    && contains job.condition (codes "github.event.workflow_run.event == 'pull_request'")
    && contains job.condition
        (codes "github.event.workflow_run.repository.full_name == github.repository")
    && text_eq (concurrency_group job) trusted_sonar_expected_concurrency

unfoldable pub validate_trusted_sonar_job : Library → Workflow → Result PolicyFault GithubJob
unfolding is_trusted_sonar_job
validate_trusted_sonar_job lib w = elim (lookup (codes "analyze") (jobs_of w)) [
  | none ↦ err (topology (codes "trusted sonar: job"))
  | some job ↦
      if not (is_trusted_sonar_job job)
      then err (topology (codes "trusted sonar: job"))
      else if contains_cache job
          || has_local_action job
          || has_secret_in_map lib w.definition.env
          || has_secret_in_map lib job.env
      then err (topology (codes "trusted sonar: caches, local actions or secrets"))
      else ok job
]

pub record TrustedSonarSteps : Type 0 where
  pub checkout : GithubStep
  pub provenance : GithubStep
  pub download : GithubStep
  pub validate_reports : GithubStep
  pub configure : GithubStep
  pub materialize : GithubStep
  pub scanner : GithubStep

unfoldable pub parse_trusted_sonar_steps : GithubJob → Result PolicyFault TrustedSonarSteps
parse_trusted_sonar_steps job = elim job.steps [
  | checkout ∷ provenance ∷ download ∷ reports ∷ configure ∷ materialize ∷ scanner ∷ [] ↦
      ok (record {
        checkout = checkout;
        provenance = provenance;
        download = download;
        validate_reports = reports;
        configure = configure;
        materialize = materialize;
        scanner = scanner;
      })
  | _ ↦ err (topology (codes "trusted sonar: steps"))
]
