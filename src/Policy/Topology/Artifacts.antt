-- ===== src/Policy/Topology/Artifacts.antt =====
-- What may be done with a downloaded artifact, and which files a release names.
pub mod Binaries
use eirctl.Prelude.{
  ℕ, suc, Bool, true, false, not, ◌&&◌, ◌||◌, List, [], ◌∷◌, none, some, Text, codes, any, elem,
  text_eq, ◌==◌, length, if◌then◌else◌,
}
use eirctl.Strings.{is_empty, to_lower, fields}
use eirctl.Github.{GithubStep, GithubJob}
use eirctl.Policy.{text_at}
use eirctl.Policy.Steps.{action_uses, contains_one}
use eirctl.Policy.Topology.{contains_all, download_artifact_action, action_index, steps_behind}

abbrev pub executing_markers : List Text
executing_markers =
    codes "source "
    ∷ codes "bash "
    ∷ codes "sh "
    ∷ codes "chmod +x"
    ∷ codes "go run "
    ∷ codes "python "
    ∷ codes "python3 "
    ∷ codes "exec "
    ∷ codes "$github_path"
    ∷ codes "$github_env"
    ∷ codes "./release-assets"
    ∷ codes "./validated-artifact"
    ∷ []

unfoldable pub executes_download : GithubStep → Bool
executes_download step =
    (not (is_empty step.uses) && not (action_uses step.uses (codes "softprops/action-gh-release")))
    || contains_one executing_markers (to_lower step.run)

unfoldable pub executes_downloaded_content : GithubJob → Bool
executes_downloaded_content job = elim (action_index job download_artifact_action) [
  | none ↦ false
  | some download ↦ any executes_download (steps_behind download job.steps)
]

-- The first step of the name contains every marker of the check of provenance.
unfoldable pub valid_debug_provenance_check : List GithubStep → Text → Bool
valid_debug_provenance_check [] name = false
valid_debug_provenance_check (step ∷ steps) name =
    let rest = valid_debug_provenance_check steps name in
    if text_eq step.name name
    then contains_all
        (codes ".repository == $repository"
          ∷ codes ".event == $event"
          ∷ codes ".workflow_path == $workflow_path"
          ∷ codes ".pull_request == $pull_request"
          ∷ codes ".commit_sha | ascii_downcase"
          ∷ codes ".workflow_run_id == $workflow_run_id"
          ∷ codes ".workflow_run_attempt == $workflow_run_attempt"
          ∷ codes ".final_artifact == $final_artifact"
          ∷ codes ".finalized_by == \"finalize\""
          ∷ codes "debug-build-intermediate-"
          ∷ codes ".semver | test("
          ∷ [])
        step.run
    else rest

abbrev pub expected_binaries : List Text
expected_binaries =
    codes "release-assets/bin/eirctl-windows-amd64.exe"
    ∷ codes "release-assets/bin/eirctl-windows-386.exe"
    ∷ codes "release-assets/bin/eirctl-windows-arm64.exe"
    ∷ codes "release-assets/bin/eirctl-darwin-amd64"
    ∷ codes "release-assets/bin/eirctl-darwin-arm64"
    ∷ codes "release-assets/bin/eirctl-linux-arm64"
    ∷ codes "release-assets/bin/eirctl-linux-amd64"
    ∷ []

-- How many different texts there are.
unfoldable pub distinct_count : List Text → ℕ
distinct_count [] = 0
distinct_count (x ∷ xs) = let rest = distinct_count xs in if elem x xs then rest else suc rest

unfoldable pub all_in : List Text → List Text → Bool
all_in [] actual = true
all_in (file ∷ expected) actual = elem file actual && all_in expected actual

unfoldable pub are_expected_binaries : List Text → Bool
are_expected_binaries files =
    length files == length expected_binaries
    && distinct_count files == length expected_binaries
    && all_in expected_binaries files

-- The first step that publishes a release names exactly the expected files.
unfoldable pub publisher_uses_only_expected_binaries : List GithubStep → Bool
publisher_uses_only_expected_binaries [] = false
publisher_uses_only_expected_binaries (step ∷ steps) =
    let rest = publisher_uses_only_expected_binaries steps in
    if action_uses step.uses (codes "softprops/action-gh-release")
    then are_expected_binaries (fields (text_at (codes "files") step.with))
    else rest
