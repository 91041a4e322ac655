-- ===== src/Policy/Topology/Sonar/Run.antt =====
-- The checks of the SonarCloud workflow, in their order.
use eirctl.Prelude.{not, none, some, codes, Map, if◌then◌else◌, Result, ok, err, ◌>>=◌}
use eirctl.Github.{GithubJob}
use eirctl.Policy.{Library, Workflow, PolicyFault, topology, Error, ◌then◌, fail_if}
use eirctl.Policy.Topology.{required_workflow}
use eirctl.Policy.Topology.Sonar.{
  TrustedSonarSteps, validate_trusted_sonar_workflow_envelope, validate_trusted_sonar_job,
  parse_trusted_sonar_steps,
}
use eirctl.Policy.Topology.Sonar.Steps.{
  validate_trusted_sonar_checkout, validate_trusted_sonar_provenance,
  validate_trusted_sonar_reports, validate_trusted_sonar_configuration,
  validate_trusted_sonar_materializer, validate_trusted_sonar_scanner,
}
use eirctl.Policy.Topology.Sonar.Token.{only_scanner_receives_sonar_token}

unfoldable validate_trusted_sonar_steps : Library → Workflow → GithubJob → TrustedSonarSteps → Error
validate_trusted_sonar_steps lib w job steps =
    validate_trusted_sonar_checkout job steps.checkout
    then validate_trusted_sonar_provenance steps.provenance
    then validate_trusted_sonar_reports steps.download steps.validate_reports
    then validate_trusted_sonar_configuration steps.configure
    then validate_trusted_sonar_materializer lib steps.materialize
    then validate_trusted_sonar_scanner steps.scanner
    then fail_if (not (only_scanner_receives_sonar_token lib w job 6))
        (topology (codes "trusted sonar: token"))

unfoldable pub trusted_sonar_job :
    Library → Map Workflow → Result PolicyFault (Workflow × GithubJob × TrustedSonarSteps)
trusted_sonar_job lib ws = do
  w ← required_workflow ws (codes ".github/workflows/trusted-sonarcloud-pr.yml")
  elim (validate_trusted_sonar_workflow_envelope w) [
    | some fault ↦ err fault
    | none ↦ do
      job ← validate_trusted_sonar_job lib w
      steps ← parse_trusted_sonar_steps job
      ok (w, job, steps)
  ]

unfoldable pub validate_trusted_sonar_cloud_topology : Library → Map Workflow → Error
unfolding validate_trusted_sonar_steps
validate_trusted_sonar_cloud_topology lib ws = elim (trusted_sonar_job lib ws) [
  | err fault ↦ some fault
  | ok (w, job, steps) ↦ validate_trusted_sonar_steps lib w job steps
]
