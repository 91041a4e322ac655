-- ===== src/Policy/Topology/Repository.antt =====
-- The checks of the other fixed workflows, and the check of the whole topology.
use eirctl.Prelude.{
  Bool, false, not, ◌&&◌, ◌||◌, List, [], ◌∷◌, Option, none, some, Text, codes, Map, lookup,
  contains, if◌then◌else◌, ok, err,
}
use eirctl.Github.{GithubJob}
use eirctl.Policy.{Library, Workflow, topology, Error, ◌then◌, first_error, fail_if, jobs_of}
use eirctl.Policy.Steps.{trusted_workflow_run}
use eirctl.Policy.Flow.{has_trigger, DirEntry, Unmarshalled, validate_root}
use eirctl.Policy.Topology.{
  required_workflow, is_protected_base_checkout, has_verified_static_main_checkout,
  has_checkout_without_credentials,
}
use eirctl.Policy.Topology.Debug.Request.{validate_debug_broker_topology}
use eirctl.Policy.Topology.Debug.Builder.{validate_debug_builder_topology}
use eirctl.Policy.Topology.Debug.Publisher.{validate_debug_publisher_topology}
use eirctl.Policy.Topology.Sonar.Run.{validate_trusted_sonar_cloud_topology}

unfoldable is_policy_job : GithubJob → Bool
is_policy_job job = elim job.steps [
  | checkout ∷ second ∷ inspect ∷ rest ↦
      is_protected_base_checkout checkout
      && contains inspect.run (codes "scripts/materialize-policy-candidate")
      && contains inspect.run (codes "go run ./scripts/check-workflow-policy --candidate-root")
  | _ ↦ false
]

unfoldable pub validate_protected_policy_topology : Map Workflow → Error
unfolding is_policy_job
validate_protected_policy_topology ws =
    elim (required_workflow ws (codes ".github/workflows/trusted-workflow-policy.yml")) [
      | err fault ↦ some fault
      | ok policy ↦ elim (lookup (codes "policy") (jobs_of policy)) [
        | none ↦ some (topology (codes "trusted workflow policy"))
        | some job ↦
            fail_if (not (has_trigger policy (codes "pull_request_target") && is_policy_job job))
              (topology (codes "trusted workflow policy"))
      ]
    ]

-- The two workflows of a release, each job of which runs on a trusted push to the main branch.
unfoldable pub validate_release_workflow : Library → Map Workflow → Text → Error
validate_release_workflow lib ws file = elim (required_workflow ws file) [
  | err fault ↦ some fault
  | ok w ↦
      first_error
        (λ (id, job).
          fail_if
            (not (trusted_workflow_run job.condition)
              || not (has_verified_static_main_checkout lib job))
            (topology (codes "release")))
        (jobs_of w)
]

unfoldable pub validate_release_topology : Library → Map Workflow → Error
validate_release_topology lib ws =
    first_error (validate_release_workflow lib ws)
      (codes ".github/workflows/release.yml" ∷ codes ".github/workflows/release_container.yml" ∷ [])

unfoldable pub validate_scorecard_topology : Map Workflow → Error
validate_scorecard_topology ws =
    elim (required_workflow ws (codes ".github/workflows/scorecard.yml")) [
      | err fault ↦ some fault
      | ok scorecard ↦ elim (lookup (codes "analysis") (jobs_of scorecard)) [
        | none ↦ some (topology (codes "scorecard"))
        | some analysis ↦
            fail_if (not (has_checkout_without_credentials analysis)) (topology (codes "scorecard"))
      ]
    ]

unfoldable pub validate_non_debug_repository_topology : Library → Map Workflow → Error
validate_non_debug_repository_topology lib ws =
    validate_release_topology lib ws
    then validate_scorecard_topology ws
    then validate_trusted_sonar_cloud_topology lib ws

unfoldable pub validate_repository_topology : Library → Map Workflow → Error
validate_repository_topology lib ws =
    validate_protected_policy_topology ws
    then validate_debug_broker_topology lib ws
    then validate_debug_builder_topology lib ws
    then validate_debug_publisher_topology lib ws
    then validate_non_debug_repository_topology lib ws

-- `Validate`, from what the reading of the directory gives.
unfoldable pub validate_directory :
    (Text → Option Unmarshalled) → Library → Option (List DirEntry) → Error
validate_directory unmarshal lib dir =
    validate_root unmarshal lib (validate_repository_topology lib) dir
