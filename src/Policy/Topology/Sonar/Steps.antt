-- ===== src/Policy/Topology/Sonar/Steps.antt =====
-- The seven steps of the SonarCloud workflow, each by itself.
use eirctl.Prelude.{
  not, ◌&&◌, ◌||◌, List, [], ◌∷◌, ◌++◌, Text, codes, text_eq, contains, ◌==◌, length,
}
use eirctl.Strings.{is_empty, trim_space, normalize_spaces, join_words, remove_first}
use eirctl.Github.{GithubStep, GithubJob}
use eirctl.Policy.{Library, topology, Error, fail_if, scalar_value, text_at}
use eirctl.Policy.Steps.{checkout_action, action_uses}
use eirctl.Policy.Topology.{
  persist_credentials, download_artifact_action, any_at, text_at_is, checkout_count, contains_all,
}

unfoldable pub validate_trusted_sonar_checkout : GithubJob → GithubStep → Error
validate_trusted_sonar_checkout job checkout =
    fail_if
      (not (text_eq checkout.name (codes "Check out trusted analyzer helpers"))
        || not (action_uses checkout.uses checkout_action)
        || not (text_at_is (codes "ref") checkout.with (codes "main"))
        || not (text_at_is (codes "fetch-depth") checkout.with (codes "1"))
        || not (text_at_is persist_credentials checkout.with (codes "false"))
        || not (text_at_is (codes "path") checkout.with (codes "trusted"))
        || not (
            contains (text_at (codes "sparse-checkout") checkout.with)
              (codes "scripts/materialize-sonar-source/main.go"))
        || not (
            contains (text_at (codes "sparse-checkout") checkout.with)
              (codes "scripts/validate-sonar-reports.sh"))
        || not (checkout_count job.steps == 1))
      (topology (codes "trusted sonar: checkout"))

abbrev provenance_markers : List Text
provenance_markers =
    codes "expected_workflow='Lint and Test'"
    ∷ codes "expected_event='pull_request'"
    ∷ codes "expected_branch='main'"
    ∷ codes "actions/runs/${RUN_ID}"
    ∷ codes ".head_repository.full_name"
    ∷ codes ".head_repository.owner.login"
    ∷ codes ".head_branch"
    ∷ codes "(length == 0 or length == 1)"
    ∷ codes "associated_pr_count == 1"
    ∷ codes "gh api --method GET \"repos/${repository}/pulls\""
    ∷ codes "-f state=open"
    ∷ codes "-f base=\"$expected_branch\""
    ∷ codes "-f head=\"${head_owner}:${head_ref}\""
    ∷ codes "-f per_page=2"
    ∷ codes "if length != 1 then"
    ∷ codes "expected exactly one open pull request for verified workflow run head"
    ∷ codes "pull request candidate does not match verified workflow run head"
    ∷ codes ".state == \"open\""
    ∷ codes ".base.repo.full_name == $repository"
    ∷ codes ".base.ref == $branch"
    ∷ codes ".head.repo.full_name == $head_repository"
    ∷ codes ".head.ref == $head_ref"
    ∷ codes ".head.sha == $sha"
    ∷ codes "actions/runs/${RUN_ID}/artifacts"
    ∷ codes ".workflow_run.id == $run_id"
    ∷ codes ".workflow_run.head_sha == $sha"
    ∷ codes "expected exactly one current Sonar report artifact"
    ∷ codes "head-repository=%s"
    ∷ []

unfoldable pub validate_trusted_sonar_provenance : GithubStep → Error
validate_trusted_sonar_provenance provenance =
    fail_if
      (not (text_eq provenance.id (codes "provenance"))
        || not (text_eq provenance.name (codes "Resolve immutable upstream provenance"))
        || not (contains_all provenance_markers provenance.run))
      (topology (codes "trusted sonar: provenance"))

unfoldable pub validate_trusted_sonar_reports : (download reports : GithubStep) → Error
validate_trusted_sonar_reports download reports =
    fail_if
      (not (text_eq download.name (codes "Download only the verified Sonar report artifact"))
        || not (action_uses download.uses download_artifact_action)
        || not (length download.with == 5)
        || not (text_at_is (codes "repository") download.with (codes "${{ github.repository }}"))
        || not (
            text_at_is (codes "artifact-ids") download.with
              (codes "${{ steps.provenance.outputs.artifact-id }}"))
        || not (
            text_at_is (codes "run-id") download.with
              (codes "${{ steps.provenance.outputs.run-id }}"))
        || not (text_at_is (codes "github-token") download.with (codes "${{ github.token }}"))
        || not (text_at_is (codes "path") download.with (codes "analysis/reports"))
        || not (text_eq reports.name (codes "Validate bounded passive report artifact"))
        || not (
            text_eq (trim_space reports.run)
              (codes "trusted/scripts/validate-sonar-reports.sh analysis/reports")))
      (topology (codes "trusted sonar: reports"))

unfoldable join_lines : List Text → Text
join_lines [] = []
join_lines (line ∷ []) = line
join_lines (line ∷ next ∷ lines) = line ++ b'\n' ∷ join_lines (next ∷ lines)

abbrev configuration_lines : List Text
configuration_lines =
    codes "mkdir -p analysis"
    ∷ codes "cat >analysis/sonar-project.properties <<'PROPERTIES'"
    ∷ codes "sonar.host.url=https://sonarcloud.io"
    ∷ codes "sonar.organization=ensono"
    ∷ codes "sonar.projectKey=Ensono_eirctl"
    ∷ codes "sonar.scm.provider=git"
    ∷ codes "sonar.sources=source"
    ∷ codes "sonar.tests=source"
    ∷ codes "sonar.inclusions=source/**/*.go"
    ∷ codes
        "sonar.exclusions=source/**/*_test.go,source/**/*_windows.go,source/**/*_generated*.go,source/**/*_generated/**,source/**/vendor/**,source/**/examples/**"
    ∷ codes "sonar.test.inclusions=source/**/*_test.go"
    ∷ codes
        "sonar.test.exclusions=source/**/*_generated*.go,source/**/*_generated/**,source/**/vendor/**"
    ∷ codes "sonar.sourceEncoding=UTF-8"
    ∷ codes "sonar.go.coverage.reportPaths=reports/.coverage/out"
    ∷ codes "sonar.go.tests.reportPaths=reports/.coverage/report-junit.xml"
    ∷ codes "sonar.qualitygate.wait=true"
    ∷ codes "PROPERTIES"
    ∷ []

unfoldable pub validate_trusted_sonar_configuration : GithubStep → Error
unfolding join_lines
validate_trusted_sonar_configuration configure =
    let expected = join_lines configuration_lines in
    let legacy_expected = remove_first (codes "sonar.scm.provider=git\n") expected in
    let run = trim_space configure.run in
    fail_if
      (not (text_eq configure.name (codes "Create trusted scanner configuration"))
        || (not (text_eq run expected) && not (text_eq run legacy_expected)))
      (topology (codes "trusted sonar: configuration"))

abbrev materializer_command : Text
materializer_command =
    codes
      "go run trusted/scripts/materialize-sonar-source/main.go --base-repository \"${GITHUB_REPOSITORY}\" --base-branch main --head-repository \"${{ steps.provenance.outputs.head-repository }}\" --head-sha \"${{ steps.provenance.outputs.head-sha }}\" --pull-request \"${{ steps.provenance.outputs.pr-number }}\" --output analysis/source --bounds tree=384,go=160,path=160,file=131072,total=1048576"

unfoldable pub validate_trusted_sonar_materializer : Library → GithubStep → Error
validate_trusted_sonar_materializer lib materialize =
    fail_if
      (not (
          text_eq materialize.name
            (codes "Materialize bounded verified Go source through the Git Data API"))
        || not (is_empty materialize.uses)
        || not (text_eq (normalize_spaces materialize.run) materializer_command)
        || not (length materialize.env == 1)
        || not (
            text_eq (scalar_value lib (any_at (codes "GH_TOKEN") materialize.env))
              (codes "${{ github.token }}")))
      (topology (codes "trusted sonar: materializer"))

abbrev scanner_args : List Text
scanner_args =
    codes "-Dsonar.projectBaseDir=analysis"
    ∷ codes "-Dsonar.host.url=https://sonarcloud.io"
    ∷ codes "-Dsonar.organization=ensono"
    ∷ codes "-Dsonar.projectKey=Ensono_eirctl"
    ∷ codes "-Dsonar.scm.provider=git"
    ∷ codes "-Dsonar.sources=source"
    ∷ codes "-Dsonar.tests=source"
    ∷ codes "-Dsonar.go.coverage.reportPaths=reports/.coverage/out"
    ∷ codes "-Dsonar.go.tests.reportPaths=reports/.coverage/report-junit.xml"
    ∷ codes "-Dsonar.pullrequest.key=${{ steps.provenance.outputs.pr-number }}"
    ∷ codes "-Dsonar.pullrequest.branch=${{ steps.provenance.outputs.head-ref }}"
    ∷ codes "-Dsonar.pullrequest.base=main"
    ∷ codes "-Dsonar.scm.revision=${{ steps.provenance.outputs.head-sha }}"
    ∷ codes "-Dsonar.qualitygate.wait=true"
    ∷ []

unfoldable pub validate_trusted_sonar_scanner : GithubStep → Error
validate_trusted_sonar_scanner scanner =
    let expected = join_words scanner_args in
    let legacy_expected = remove_first (codes "-Dsonar.scm.provider=git ") expected in
    let given = normalize_spaces (text_at (codes "args") scanner.with) in
    fail_if
      (not (text_eq scanner.name (codes "Scan passive pull-request data with SonarCloud"))
        || not (
            text_eq scanner.uses
              (codes "SonarSource/sonarqube-scan-action@22918119ff8e1ca75a623e15c8296b6ea4fbe28f"))
        || not (text_at_is (codes "scannerVersion") scanner.with (codes "8.1.0.6389"))
        || not (
            text_at_is (codes "scannerBinariesUrl") scanner.with
              (codes "https://binaries.sonarsource.com/Distribution/sonar-scanner-cli"))
        || not (text_at_is (codes "skipSignatureVerification") scanner.with (codes "false"))
        || (not (text_eq given expected) && not (text_eq given legacy_expected)))
      (topology (codes "trusted sonar: scanner"))
