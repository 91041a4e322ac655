-- ===== src/Policy/Topology/Sonar/Token.antt =====
-- Which step may receive the token of SonarCloud.
use eirctl.Prelude.{
  ℕ, suc, Bool, true, false, not, ◌&&◌, ◌||◌, List, [], ◌∷◌, codes, text_eq, contains, ◌==◌, length,
  if◌then◌else◌,
}
use eirctl.Github.{GithubStep, GithubJob}
use eirctl.Policy.{Library, Workflow, ◌then◌, scalar_value}
use eirctl.Policy.Steps.{any_value}
use eirctl.Policy.Authority.{has_secret_in_map}
use eirctl.Policy.Topology.{any_at}

-- Whether a step names the token or a secret where no step may.
unfoldable pub step_contains_forbidden_sonar_reference : GithubStep → Bool
step_contains_forbidden_sonar_reference step =
    contains step.run (codes "SONAR_TOKEN")
    || contains step.uses (codes "SONAR_TOKEN")
    || any_value
        (λ value. contains value (codes "SONAR_TOKEN") || contains value (codes "secrets."))
        step.with

unfoldable pub scanner_step_secret_scope_valid :
    Library → GithubStep → (index scanner_index : ℕ) → Bool
scanner_step_secret_scope_valid lib step index scanner_index =
    let approved =
      index == scanner_index
      && text_eq (scalar_value lib (any_at (codes "SONAR_TOKEN") step.env))
          (codes "${{ secrets.SONAR_TOKEN }}")
      && length step.env == 1 in
    let names_secret =
      any_value
        (λ value.
          contains (scalar_value lib value) (codes "SONAR_TOKEN")
          || contains (scalar_value lib value) (codes "secrets."))
        step.env in
    not (names_secret && not approved) && not (step_contains_forbidden_sonar_reference step)

unfoldable pub all_secret_scopes_valid :
    Library → List GithubStep → (index scanner_index : ℕ) → Bool
all_secret_scopes_valid lib [] index scanner_index = true
all_secret_scopes_valid lib (step ∷ steps) index scanner_index =
    scanner_step_secret_scope_valid lib step index scanner_index
    && all_secret_scopes_valid lib steps (suc index) scanner_index

unfoldable pub only_scanner_receives_sonar_token : Library → Workflow → GithubJob → ℕ → Bool
only_scanner_receives_sonar_token lib w job scanner_index =
    if has_secret_in_map lib w.definition.env || has_secret_in_map lib job.env
    then false
    else all_secret_scopes_valid lib job.steps 0 scanner_index
