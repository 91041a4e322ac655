-- ===== src/Policy/Topology/Debug/Request.antt =====
-- The workflow that takes the request of a debug build, and finalizes what the builder makes.
use eirctl.Prelude.{
  Bool, false, not, ◌&&◌, [], ◌∷◌, Option, none, some, Text, codes, Map, lookup, text_eq, ◌==◌,
  length, if◌then◌else◌, ok, err,
}
use eirctl.Strings.{is_empty, normalize_spaces}
use eirctl.Github.{GithubStep, GithubJob, GithubConcurrency}
use eirctl.Policy.{Library, Workflow, topology, Error, fail_if, scalar_value, jobs_of}
use eirctl.Policy.Steps.{action_uses, job_has_untrusted_shell_checkout}
use eirctl.Policy.Authority.{has_secret_reference, job_secrets_configured}
use eirctl.Policy.Permitted.{same_permissions}
use eirctl.Policy.Flow.{has_only_triggers}
use eirctl.Policy.Topology.{
  download_artifact_action, debug_request_workflow_path, text_at_is, required_workflow,
  workflow_concurrency_group, step_at, action_index, has_checkout, has_local_action, job_uses,
  step_with_contains, contains_string, is_github_hosted, step_digest_matches, job_run_contains,
  github_script_index_containing, job_has_environment, stands_before,
}
use eirctl.Policy.Topology.Debug.{
  reads_pull_requests, reads_artifacts, github_script, layout_step, provenance_step,
}

-- The workflow does not cancel a run in progress.
unfoldable keeps_running : Library → Option GithubConcurrency → Bool
keeps_running lib none = false
keeps_running lib (some concurrency) =
    text_eq (scalar_value lib concurrency.cancel_in_progress) (codes "false")

unfoldable is_named_step : Option GithubStep → (name action : Text) → Bool
is_named_step none name action = false
is_named_step (some step) name action = text_eq step.name name && action_uses step.uses action

unfoldable pub exact_debug_finalizer_steps : Library → GithubJob → Bool
unfolding is_named_step
exact_debug_finalizer_steps lib job =
    length job.steps == 5
    && step_digest_matches lib job.steps (codes "Revalidate immutable identity before finalization")
        (codes "script") (codes "7d7adf685f6e2671749ce89b8db1cab64ddc33b431aed0bf33c7702e8dbddc1d")
    && is_named_step (step_at 1 job.steps)
        (codes "Download only the run-specific intermediate artifact") download_artifact_action
    && step_digest_matches lib job.steps layout_step (codes "run")
        (codes "aa03ed77bdac4da73f3db9b6242108cdc3272ae8e07603a27f0f3ad1d98169c2")
    && step_digest_matches lib job.steps provenance_step (codes "run")
        (codes "9814dc1d493ea793ee2cea450d630498d81b2dedfbfaa6ee2062d718b2034142")
    && is_named_step (step_at 4 job.steps) (codes "Upload immutable final debug build artifact")
        (codes "actions/upload-artifact")

-- The envelope of the workflow that takes the request.
unfoldable pub is_debug_broker : Library → Workflow → Bool
unfolding keeps_running
is_debug_broker lib broker =
    length (jobs_of broker) == 3
    && has_only_triggers broker (codes "issue_comment" ∷ [])
    && text_eq (workflow_concurrency_group broker)
        (codes "debug-build-request-${{ github.event.issue.number }}")
    && keeps_running lib broker.definition.concurrency

unfoldable pub is_debug_authorization : Library → GithubJob → Bool
is_debug_authorization lib authorize =
    text_eq (normalize_spaces authorize.condition) (
      codes
        "github.event.issue.pull_request != null && github.event.comment.body == '/build-debug'")
    && not (has_checkout authorize)
    && not (job_has_untrusted_shell_checkout lib authorize)
    && not (has_local_action authorize)
    && same_permissions authorize.permissions ((codes "pull-requests", codes "read") ∷ [])
    && length authorize.steps == 1
    && job_uses authorize github_script
    && step_digest_matches lib authorize.steps (codes "Authorize exact debug-build request")
        (codes "script") (codes "e7305c7b816eae30ff48df8753a890a056fd589bc5b7bf7830598063f67cfd32")
    && step_with_contains authorize github_script (codes "script")
        (codes "getCollaboratorPermissionLevel")
    && step_with_contains authorize github_script (codes "script")
        (codes "['write', 'maintain', 'admin']")
    && step_with_contains authorize github_script (codes "script")
        (codes "pullRequest.base.repo.full_name !== repository")
    && text_at_is (codes "pull_request") authorize.outputs
        (codes "${{ steps.authorize.outputs.pull_request }}")
    && text_at_is (codes "commit_sha") authorize.outputs
        (codes "${{ steps.authorize.outputs.commit_sha }}")

unfoldable pub is_debug_call : GithubJob → Bool
is_debug_call build =
    text_eq build.uses (codes "./.github/workflows/debug-build.yml")
    && contains_string build.needs (codes "authorize")
    && text_at_is (codes "pull_request") build.with
        (codes "${{ needs.authorize.outputs.pull_request }}")
    && text_at_is (codes "commit_sha") build.with
        (codes "${{ needs.authorize.outputs.commit_sha }}")
    && same_permissions build.permissions reads_pull_requests
    && not (job_secrets_configured build)
    && is_empty build.environment
    && length build.steps == 0
    && length build.runs_on == 0

unfoldable pub is_debug_finalizer : Library → GithubJob → Bool
is_debug_finalizer lib finalize =
    contains_string finalize.needs (codes "authorize")
    && contains_string finalize.needs (codes "build")
    && exact_debug_finalizer_steps lib finalize
    && stands_before (github_script_index_containing finalize (codes "github.rest.pulls.get"))
        (action_index finalize download_artifact_action)
    && is_github_hosted finalize
    && same_permissions finalize.permissions reads_artifacts
    && step_digest_matches lib finalize.steps
        (codes "Revalidate immutable identity before finalization") (codes "script")
        (codes "7d7adf685f6e2671749ce89b8db1cab64ddc33b431aed0bf33c7702e8dbddc1d")
    && step_digest_matches lib finalize.steps layout_step (codes "run")
        (codes "aa03ed77bdac4da73f3db9b6242108cdc3272ae8e07603a27f0f3ad1d98169c2")
    && step_digest_matches lib finalize.steps provenance_step (codes "run")
        (codes "9814dc1d493ea793ee2cea450d630498d81b2dedfbfaa6ee2062d718b2034142")
    && not (job_has_environment finalize)
    && not (has_secret_reference lib finalize)
    && not (has_checkout finalize)
    && step_with_contains finalize (codes "actions/download-artifact@") (codes "name")
        (codes "debug-build-intermediate-${{ github.run_id }}-${{ github.run_attempt }}")
    && job_run_contains finalize layout_step (codes "lstat().st_mode")
    && job_run_contains finalize provenance_step (codes "finalized_by")
    && step_with_contains finalize (codes "actions/upload-artifact@") (codes "name")
        (codes "debug-build-${{ github.run_id }}")

-- The jobs of the request workflow, if it has them.
unfoldable pub debug_broker_jobs : Workflow → Option (GithubJob × GithubJob × GithubJob)
debug_broker_jobs broker = elim (lookup (codes "authorize") (jobs_of broker)) [
  | none ↦ none
  | some authorize ↦ elim (lookup (codes "build") (jobs_of broker)) [
    | none ↦ none
    | some build ↦ elim (lookup (codes "finalize") (jobs_of broker)) [
      | none ↦ none
      | some finalize ↦ some (authorize, build, finalize)
    ]
  ]
]

unfoldable pub validate_debug_broker_topology : Library → Map Workflow → Error
validate_debug_broker_topology lib ws = elim (required_workflow ws debug_request_workflow_path) [
  | err fault ↦ some fault
  | ok broker ↦ elim (debug_broker_jobs broker) [
    | none ↦ some (topology (codes "debug request: jobs"))
    | some (authorize, build, finalize) ↦
        if not (is_debug_broker lib broker)
        then some (topology (codes "debug request: jobs"))
        else if not (is_debug_authorization lib authorize)
        then some (topology (codes "debug request: authorization"))
        else if not (is_debug_call build)
        then some (topology (codes "debug request: build"))
        else fail_if (not (is_debug_finalizer lib finalize))
            (topology (codes "debug request: finalizer"))
  ]
]
