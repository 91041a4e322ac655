-- ===== src/Policy/Topology/Debug.antt =====
-- The workflows that build and publish a debug release for a pull request: what they share.
pub mod Request
pub mod Builder
pub mod Publisher
pub mod Caller
use eirctl.Prelude.{
  ℕ, Bool, true, false, not, ◌&&◌, ◌||◌, List, [], ◌∷◌, Option, none, some, Text, codes, Map,
  lookup, elem, text_eq, contains, ◌==◌, length, if◌then◌else◌, Result, ok, err,
}
use eirctl.Strings.{is_empty, normalize_spaces}
use eirctl.Github.{
  GithubStep, GithubJob, GithubInput, GithubTriggerEvents, GithubWorkflow, GithubConcurrency,
}
use eirctl.Github.Values.{no_input}
use eirctl.Policy.{
  Library, Workflow, PolicyFault, topology, Error, fail_if, Permissions, scalar_value, text_at,
  jobs_of,
}
use eirctl.Policy.Steps.{action_uses, job_has_untrusted_shell_checkout}
use eirctl.Policy.Authority.{has_secret_reference, job_secrets_configured}
use eirctl.Policy.Permitted.{same_permissions}
use eirctl.Policy.Flow.{has_only_triggers}
use eirctl.Policy.Topology.{
  download_artifact_action, debug_request_workflow_path, debug_builder_workflow_path, text_at_is,
  required_workflow, has_only_effective_debug_caller, workflow_concurrency_group, step_at,
  action_index, has_checkout, has_local_action, job_uses, step_with_contains,
  checkout_index_for_ref, checkout_disables_credentials, contains_string, is_github_hosted,
  step_digest_matches, job_run_contains, github_script_index_containing, job_has_environment,
  stands_before,
}
use eirctl.Policy.Topology.Artifacts.{
  executes_downloaded_content, valid_debug_provenance_check, publisher_uses_only_expected_binaries,
}

abbrev pub reads_pull_requests : Permissions
reads_pull_requests = (codes "contents", codes "read") ∷ (codes "pull-requests", codes "read") ∷ []

abbrev pub reads_artifacts : Permissions
reads_artifacts =
    (codes "actions", codes "read")
    ∷ (codes "contents", codes "read")
    ∷ (codes "pull-requests", codes "read")
    ∷ []

abbrev pub github_script : Text
github_script = codes "actions/github-script@"

abbrev pub layout_step : Text
layout_step = codes "Validate bounded binary layout without execution"

abbrev pub provenance_step : Text
provenance_step = codes "Create trusted clean-runner provenance"
