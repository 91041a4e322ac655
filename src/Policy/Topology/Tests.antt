-- ===== src/Policy/Topology/Tests.antt =====
-- The checks of the builder, of the released files and of the token, on examples.
use eirctl.Prelude.{
  ◌≡◌, refl, ◌↔◌, ℕ, ℕ, true, false, [], ◌∷◌, some, none, Text, codes, Map, In, Distinct, length,
  ◌⊎◌,
}
use eirctl.Variables.{str, Any}
use eirctl.Github.{GithubStep, GithubJob, GithubInput}
use eirctl.Github.Values.{events_of, no_step, no_job, no_input}
use eirctl.Policy.{Library, Workflow, scalar_value}
use eirctl.Policy.Events.Reach.{StartedBy}
use eirctl.Policy.Authority.Unprivileged.{IsSecretFree}
use eirctl.Policy.Flow.{has_all_events, has_only_triggers}
use eirctl.Policy.Tests.{policing, lib_with, workflow_on}
use eirctl.Policy.Topology.{
  debug_request_workflow_path, debug_builder_workflow_path, any_at, text_at_is, required_workflow,
  is_debug_caller, has_only_effective_debug_caller, step_index, step_at, contains_string,
  is_github_hosted, field_of, step_digest_matches, job_run_contains, step_with_contains,
  checkout_index_for_ref, checkout_disables_credentials, github_script_index_containing,
  job_has_environment, stands_before,
}
use eirctl.Policy.Topology.Artifacts.{expected_binaries, are_expected_binaries}
use eirctl.Policy.Topology.Artifacts.Binaries.{are_expected_binaries_iff}
use eirctl.Policy.Topology.Debug.{reads_pull_requests}
use eirctl.Policy.Topology.Debug.Builder.{
  input_at, is_required_string, is_debug_builder_trigger, is_debug_builder_job,
  validate_debug_builder_topology,
}
use eirctl.Policy.Topology.Debug.Caller.{debug_request, validate_debug_builder_topology-caller}
use eirctl.Policy.Topology.Sonar.Token.{
  step_contains_forbidden_sonar_reference, scanner_step_secret_scope_valid, all_secret_scopes_valid,
  only_scanner_receives_sonar_token,
}
use eirctl.Policy.Topology.Sonar.Scope.{IsTokenFree, only_scanner_receives_sonar_token_lem}

unfoldable building : Unit {0}
unfolding policing has_all_events has_only_triggers text_at_is required_workflow is_debug_caller
    has_only_effective_debug_caller step_index step_at contains_string is_github_hosted field_of
    step_digest_matches job_run_contains step_with_contains checkout_index_for_ref
    checkout_disables_credentials github_script_index_containing job_has_environment stands_before
    input_at is_required_string is_debug_builder_trigger is_debug_builder_job
    validate_debug_builder_topology any_at step_contains_forbidden_sonar_reference
    scanner_step_secret_scope_valid all_secret_scopes_valid only_scanner_receives_sonar_token
building = tt

abbrev lib : Library
lib = lib_with (codes "fd7cbba9697ffaf09134f2dbf91a1e63555c25d5ccdde0e158750c883614952f")

abbrev revalidate : GithubStep
revalidate = record no_step {
  name = codes "Revalidate pull-request identity before checkout";
  uses = codes "actions/github-script@0123456789abcdef0123456789abcdef01234567";
  with =
      (
        codes "script",
        codes
            "github.rest.pulls.get pullRequest.base.repo.full_name !== repository pullRequest.head.sha.toLowerCase() !== commitSHA.toLowerCase()",
      )
      ∷ [];
}

abbrev checkout : GithubStep
checkout = record no_step {
  uses = codes "actions/checkout@0123456789abcdef0123456789abcdef01234567";
  with =
      (codes "ref", codes "${{ inputs.commit_sha }}")
      ∷ (codes "persist-credentials", codes "false")
      ∷ [];
}

abbrev setup : GithubStep
setup = record no_step {
  uses = codes "actions/setup-go@0123456789abcdef0123456789abcdef01234567";
  with = (codes "cache", codes "false") ∷ [];
}

abbrev upload : GithubStep
upload = record no_step {
  uses = codes "actions/upload-artifact@0123456789abcdef0123456789abcdef01234567";
  with =
      (
        codes "name",
        codes "debug-build-intermediate-${{ github.run_id }}-${{ github.run_attempt }}",
      )
      ∷ [];
}

abbrev build_job : GithubJob
build_job = record no_job {
  runs_on = codes "ubuntu-latest" ∷ [];
  steps = revalidate ∷ checkout ∷ setup ∷ upload ∷ [];
  permissions = reads_pull_requests;
}

abbrev required_string : GithubInput
required_string = record no_input { required = true; type = codes "string" }

abbrev builder_workflow : Workflow
builder_workflow = record {
  path = debug_builder_workflow_path;
  definition = record {
    name = [];
    on = some (record (events_of (codes "workflow_call" ∷ [])) {
      workflow_call = record {
        inputs =
            (codes "pull_request", required_string) ∷ (codes "commit_sha", required_string) ∷ [];
        outputs = [];
        secrets = [];
      };
    });
    jobs = record { ordered = []; values = (codes "build", build_job) ∷ [] };
    defaults = none;
    env = [];
    permissions = [];
    concurrency = none;
  };
}

abbrev request : Workflow
request =
    workflow_on debug_request_workflow_path (codes "issue_comment")
      ((codes "build", record no_job { uses = codes "./.github/workflows/debug-build.yml" }) ∷ [])

abbrev workflows : Map Workflow
workflows =
    (debug_request_workflow_path, request) ∷ (debug_builder_workflow_path, builder_workflow) ∷ []

builder_workflow-passed : validate_debug_builder_topology lib workflows ≡ none
unfolding building
builder_workflow-passed = refl

validate_debug_builder_topology-caller_example :
    StartedBy workflows debug_builder_workflow_path debug_request ↔ (debug_request ≡ debug_request)
validate_debug_builder_topology-caller_example =
    validate_debug_builder_topology-caller lib workflows builder_workflow-passed debug_request

are_expected_binaries_iff_example :
    (are_expected_binaries (codes "release-assets/bin/eirctl-linux-amd64" ∷ []) ≡ true) ↔ (
      Distinct (codes "release-assets/bin/eirctl-linux-amd64" ∷ [])
      × ((file : Text)
          → In file (codes "release-assets/bin/eirctl-linux-amd64" ∷ [])
            ↔ In file expected_binaries))
are_expected_binaries_iff_example =
    are_expected_binaries_iff (codes "release-assets/bin/eirctl-linux-amd64" ∷ [])

abbrev scanner : GithubStep
scanner = record no_step {
  env = (codes "SONAR_TOKEN", str (codes "${{ secrets.SONAR_TOKEN }}")) ∷ [];
}

abbrev prepare : GithubStep
prepare = record no_step { env = (codes "MODE", str (codes "passive")) ∷ [] }

abbrev analyze : GithubJob
analyze = record no_job { steps = prepare ∷ scanner ∷ [] }

scanner-alone : only_scanner_receives_sonar_token lib request analyze 1 ≡ true
unfolding building
scanner-alone = refl

-- The step before the scanner may not have the token.
prepare-refused : only_scanner_receives_sonar_token lib request analyze 0 ≡ false
unfolding building
prepare-refused = refl

prepare-at : step_at 0 analyze.steps ≡ some prepare
unfolding building
prepare-at = refl

only_scanner_receives_sonar_token_lem_example :
    ((name : Text) (value : Any)
      → In (name, value) request.definition.env
      → IsSecretFree (scalar_value lib value))
    × ((name : Text) (value : Any)
        → In (name, value) analyze.env
        → IsSecretFree (scalar_value lib value))
    × IsTokenFree prepare.run
    × IsTokenFree prepare.uses
    × ((name value : Text) → In (name, value) prepare.with → IsTokenFree value × IsSecretFree value)
    × (((name : Text) (value : Any)
          → In (name, value) prepare.env
          → IsTokenFree (scalar_value lib value) × IsSecretFree (scalar_value lib value))
        ⊎ ((◌≡◌ {A = ℕ} 0 1)
            × (scalar_value lib (any_at (codes "SONAR_TOKEN") prepare.env)
                ≡ codes "${{ secrets.SONAR_TOKEN }}")
            × (length prepare.env ≡ 1)))
only_scanner_receives_sonar_token_lem_example =
    only_scanner_receives_sonar_token_lem lib request analyze 1 0 prepare scanner-alone prepare-at
