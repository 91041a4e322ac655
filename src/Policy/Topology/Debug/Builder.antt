-- ===== src/Policy/Topology/Debug/Builder.antt =====
-- The workflow that builds the revision of a pull request.
use eirctl.Prelude.{
  Bool, not, ◌&&◌, [], ◌∷◌, none, some, Text, codes, Map, lookup, text_eq, ◌==◌, length, ok, err,
}
use eirctl.Github.{GithubJob, GithubInput, GithubTriggerEvents}
use eirctl.Github.Values.{no_input}
use eirctl.Policy.{Library, Workflow, topology, Error, fail_if, jobs_of}
use eirctl.Policy.Authority.{has_secret_reference, job_secrets_configured}
use eirctl.Policy.Permitted.{same_permissions}
use eirctl.Policy.Flow.{has_only_triggers}
use eirctl.Policy.Topology.{
  debug_builder_workflow_path, required_workflow, has_only_effective_debug_caller,
  step_with_contains, checkout_index_for_ref, checkout_disables_credentials, is_github_hosted,
  step_digest_matches, job_run_contains, github_script_index_containing, job_has_environment,
  stands_before,
}
use eirctl.Policy.Topology.Debug.{reads_pull_requests, github_script}

unfoldable pub input_at : Text → Map GithubInput → GithubInput
input_at name inputs = elim (lookup name inputs) [ none ↦ no_input | some input ↦ input ]

unfoldable pub is_required_string : GithubInput → Bool
is_required_string input = input.required && text_eq input.type (codes "string")

-- The trigger and the call of the builder.
unfoldable pub is_debug_builder_trigger : Map Workflow → Workflow → GithubTriggerEvents → Bool
unfolding input_at is_required_string
is_debug_builder_trigger ws build events =
    length (jobs_of build) == 1
    && has_only_triggers build (codes "workflow_call" ∷ [])
    && has_only_effective_debug_caller ws
    && length events.workflow_call.secrets == 0
    && is_required_string (input_at (codes "pull_request") events.workflow_call.inputs)
    && is_required_string (input_at (codes "commit_sha") events.workflow_call.inputs)

unfoldable pub is_debug_builder_job : Library → GithubJob → Bool
is_debug_builder_job lib job =
    let checkout = checkout_index_for_ref job (codes "${{ inputs.commit_sha }}") in
    stands_before (github_script_index_containing job (codes "github.rest.pulls.get")) checkout
    && is_github_hosted job
    && same_permissions job.permissions reads_pull_requests
    && step_digest_matches lib job.steps (codes "Revalidate pull-request identity before checkout")
        (codes "script") (codes "fd7cbba9697ffaf09134f2dbf91a1e63555c25d5ccdde0e158750c883614952f")
    && step_with_contains job github_script (codes "script")
        (codes "pullRequest.base.repo.full_name !== repository")
    && step_with_contains job github_script (codes "script")
        (codes "pullRequest.head.sha.toLowerCase() !== commitSHA.toLowerCase()")
    && checkout_disables_credentials job checkout
    && step_with_contains job (codes "actions/setup-go@") (codes "cache") (codes "false")
    && not (job_has_environment job)
    && not (has_secret_reference lib job)
    && not (job_secrets_configured job)
    && step_with_contains job (codes "actions/upload-artifact@") (codes "name")
        (codes "debug-build-intermediate-${{ github.run_id }}-${{ github.run_attempt }}")
    && not (job_run_contains job [] (codes "debug-build-provenance.json"))
    && not (
        step_with_contains job (codes "actions/upload-artifact@") (codes "name")
          (codes "debug-build-${{ github.run_id }}"))

unfoldable pub validate_debug_builder_topology : Library → Map Workflow → Error
validate_debug_builder_topology lib ws = elim (required_workflow ws debug_builder_workflow_path) [
  | err fault ↦ some fault
  | ok build ↦ elim (build.definition.on) [
    | none ↦ some (topology (codes "debug build: trigger or job"))
    | some events ↦ elim (lookup (codes "build") (jobs_of build)) [
      | none ↦ some (topology (codes "debug build: trigger or job"))
      | some job ↦
          fail_if (not (is_debug_builder_trigger ws build events && is_debug_builder_job lib job))
            (topology (codes "debug build: builder"))
    ]
  ]
]
