-- ===== src/Policy/Steps.antt =====
-- What a step of a job does: the action it uses, whether it checks out content that a pull request
-- controls, and whether it runs what lies in the workspace.
pub mod Pinned
pub mod Executes
use eirctl.Prelude.{
  ℕ, zero, suc, Bool, true, false, not, ◌&&◌, ◌||◌, List, [], ◌∷◌, Option, none, some, Text, codes,
  Map, lookup, any, text_eq, has_prefix, contains, if◌then◌else◌, ◌==◌, leb, length, reverse,
}
use eirctl.Variables.{Any}
use eirctl.Strings.{is_empty, to_lower, equal_fold, trim_space, before_last}
use eirctl.Github.{GithubStep, GithubJob}
use eirctl.Policy.{Library, scalar_value, text_at, Workflow}

abbrev pub checkout_action : Text
checkout_action = codes "actions/checkout"

unfoldable pub any_value {ℓ} : {V : Type ℓ} → (V → Bool) → Map V → Bool
any_value p [] = false
any_value p ((k, v) ∷ m) = p v || any_value p m

-- Whether one of the markers stands in the text.
unfoldable pub contains_one : List Text → Text → Bool
contains_one [] s = false
contains_one (marker ∷ markers) s = contains s marker || contains_one markers s

-- `value` is the action at some version: what stands before its last `@`, which is not its first
-- byte.
unfoldable pub action_uses : Text → Text → Bool
action_uses value action = elim (before_last b'@' value) [
  | none ↦ false
  | some name ↦ if is_empty name then false else equal_fold name action
]

unfoldable pub is_hex : ℕ → Bool
is_hex c = (leb b'0' c && leb c b'9') || (leb b'a' c && leb c b'f')

-- A number of hexadecimal digits, and then `@`; the text is read from its end.
unfoldable pub hex_then_at : ℕ → Text → Bool
hex_then_at n [] = false
hex_then_at zero (c ∷ s) = c == b'@'
hex_then_at (suc n) (c ∷ s) = is_hex c && hex_then_at n s

-- `pinnedAction`
unfoldable pub is_pinned : Text → Bool
is_pinned uses = hex_then_at 40 (reverse uses)

-- A job is taken to be on a trusted run of the main branch by the text of its condition.
unfoldable pub trusted_workflow_run : Text → Bool
trusted_workflow_run condition =
    contains condition (codes "github.event.workflow_run.event == 'push'")
    && contains condition
        (codes "github.event.workflow_run.head_repository.full_name == github.repository")
    && contains condition (codes "github.event.workflow_run.head_branch == 'main'")

unfoldable pub has_untrusted_shell_checkout : Library → GithubStep → Bool
has_untrusted_shell_checkout lib step =
    let command = to_lower step.run in
    let checkout =
      contains_one
        (codes "git checkout"
          ∷ codes "git fetch"
          ∷ codes "git clone"
          ∷ codes "git switch"
          ∷ codes "gh pr checkout"
          ∷ [])
        command in
    if not checkout
    then false
    else if contains command (codes "${{") || contains command (codes "$")
    then true
    else any_value (λ value. contains (scalar_value lib value) (codes "${{")) step.env

unfoldable pub is_untrusted_checkout : GithubStep → GithubJob → Bool
is_untrusted_checkout step job =
    let repository = trim_space (text_at (codes "repository") step.with) in
    let ref = trim_space (text_at (codes "ref") step.with) in
    if not (action_uses step.uses checkout_action)
    then false
    else if contains repository (codes "${{")
    then true
    else if is_empty ref || text_eq ref (codes "${{ github.event.pull_request.base.sha }}")
    then false
    else if contains ref (codes "github.event.workflow_run.head_sha")
    then not (trusted_workflow_run job.condition)
    else contains ref (codes "${{")

unfoldable pub executes_workspace : GithubStep → Bool
executes_workspace step =
    if not (is_empty step.run) || has_prefix step.uses (codes "./")
    then true
    else if is_empty step.uses || has_prefix step.uses (codes "actions/checkout@")
    then false
    else not (has_prefix step.uses (codes "actions/setup-go@"))
      || not (text_eq (text_at (codes "cache") step.with) (codes "false"))

unfoldable pub executes_after_untrusted_checkout : GithubJob → List GithubStep → Bool
executes_after_untrusted_checkout job [] = false
executes_after_untrusted_checkout job (step ∷ steps) =
    let rest = executes_after_untrusted_checkout job steps in
    if is_untrusted_checkout step job && any executes_workspace steps then true else rest

unfoldable pub job_has_untrusted_shell_checkout : Library → GithubJob → Bool
job_has_untrusted_shell_checkout lib job = any (has_untrusted_shell_checkout lib) job.steps

unfoldable pub job_has_privileged_pr_execution : Library → GithubJob → Bool
job_has_privileged_pr_execution lib job =
    executes_after_untrusted_checkout job job.steps || job_has_untrusted_shell_checkout lib job
