-- ===== src/Policy/Topology/Debug/Publisher.antt =====
-- The workflow that publishes a debug build.
use eirctl.Prelude.{
  Bool, true, not, ◌&&◌, List, [], ◌∷◌, none, some, Text, codes, Map, lookup, text_eq, ok, err,
}
use eirctl.Github.{GithubJob}
use eirctl.Policy.{Library, Workflow, topology, Error, fail_if, jobs_of}
use eirctl.Policy.Permitted.{same_permissions}
use eirctl.Policy.Flow.{has_only_triggers}
use eirctl.Policy.Topology.{
  required_workflow, has_checkout, step_with_contains, contains_string, step_digest_matches,
  job_has_environment,
}
use eirctl.Policy.Topology.Artifacts.{
  executes_downloaded_content, valid_debug_provenance_check, publisher_uses_only_expected_binaries,
}
use eirctl.Policy.Topology.Debug.{reads_artifacts, github_script}

abbrev on_main : Text
on_main = codes "github.ref == 'refs/heads/main'"

-- The script that validates the selected run contains what it must check.
unfoldable pub validates_selected_run : GithubJob → List Text → Bool
validates_selected_run validate [] = true
validates_selected_run validate (marker ∷ markers) =
    step_with_contains validate github_script (codes "script") marker
    && validates_selected_run validate markers

unfoldable pub is_debug_release_validation : Library → GithubJob → Bool
is_debug_release_validation lib validate =
    text_eq validate.condition on_main
    && same_permissions validate.permissions reads_artifacts
    && not (job_has_environment validate)
    && step_digest_matches lib validate.steps
        (codes "Validate selected request run, artifact, and PR revision") (codes "script")
        (codes "1627ebea3c9c742051dfa75dee11fc125ed9c12617eb6622c73c73aeec22002c")
    && step_digest_matches lib validate.steps
        (codes "Verify clean-runner provenance before publication") (codes "run")
        (codes "e3bd42f55585329e0b0003d67dc4e375198b913004d9a0d76f8b8ab15d146e49")
    && validates_selected_run validate (
        codes "run.path !== '.github/workflows/debug-build-request.yml'"
        ∷ codes "run.event !== 'issue_comment'"
        ∷ codes "run.conclusion !== 'success'"
        ∷ codes "pr.head.sha.toLowerCase() !== commitSHA.toLowerCase()"
        ∷ codes "!candidate.expired"
        ∷ codes "matches.length !== 1"
        ∷ codes "artifact.workflow_run?.id !== runId"
        ∷ codes "String(run.run_attempt)"
        ∷ [])
    && step_with_contains validate (codes "actions/download-artifact@") (codes "artifact-ids")
        (codes "${{ steps.validate.outputs.artifact_id }}")
    && valid_debug_provenance_check validate.steps
        (codes "Verify clean-runner provenance before publication")
    && not (has_checkout validate)
    && not (executes_downloaded_content validate)

unfoldable pub is_debug_publication : Library → GithubJob → Bool
is_debug_publication lib publish =
    text_eq publish.condition on_main
    && same_permissions publish.permissions
        ((codes "actions", codes "read") ∷ (codes "contents", codes "write") ∷ [])
    && text_eq publish.environment (codes "debug-release")
    && contains_string publish.needs (codes "validate-build")
    && step_digest_matches lib publish.steps
        (codes "Recheck provenance on the protected publish runner") (codes "run")
        (codes "948040e50d7d7b07589b449c9649d13bfdf5333a8954703503f2f94ba5d044dc")
    && step_with_contains publish (codes "actions/download-artifact@") (codes "artifact-ids")
        (codes "${{ needs.validate-build.outputs.artifact_id }}")
    && valid_debug_provenance_check publish.steps
        (codes "Recheck provenance on the protected publish runner")
    && publisher_uses_only_expected_binaries publish.steps
    && not (has_checkout publish)
    && not (executes_downloaded_content publish)

unfoldable pub validate_debug_publisher_topology : Library → Map Workflow → Error
validate_debug_publisher_topology lib ws =
    elim (required_workflow ws (codes ".github/workflows/publish-debug-release.yml")) [
      | err fault ↦ some fault
      | ok w ↦ elim (lookup (codes "validate-build") (jobs_of w)) [
        | none ↦ some (topology (codes "debug publication"))
        | some validate ↦ elim (lookup (codes "publish") (jobs_of w)) [
          | none ↦ some (topology (codes "debug publication"))
          | some publish ↦
              fail_if
                (not (
                  has_only_triggers w (codes "workflow_dispatch" ∷ [])
                  && is_debug_release_validation lib validate
                  && is_debug_publication lib publish))
                (topology (codes "debug publication"))
        ]
      ]
    ]
