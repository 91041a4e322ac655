-- ===== src/Runner.antt =====
-- runner/runner.go: the loop of `execute` over the jobs of a task. The template engine and the
-- executor are parameters; the linked list of jobs is a list, and times are left out.
pub mod Compile
pub mod Execute
pub mod Tests
use eirctl.Prelude.{
  ℕ, Bool, true, false, List, [], ◌∷◌, ◌++◌, Option, none, some, Text, Result, ok, err,
  if◌then◌else◌,
}
use eirctl.Variables.{Variables}
use eirctl.Task.{Task, with_exit_code, with_error}

pub record Job : Type 0 where
  pub command : Text
  pub dir : Text
  pub env : Variables
  pub vars : Variables
  pub timeout : Option ℕ
  pub is_shell : Bool

-- What the executor returns for a job: no error, one that is an exit status, or another.
pub data Outcome : Type 0 where
  passed : Outcome
  exit_status : (status : ℕ) (message : Text) → Outcome
  failed : (message : Text) → Outcome

-- The task and the commands that were run, with the error that is returned.
abbrev pub Execution : Type 0
Execution = (Task × List Text) × Option Text

module _ (parse_template : Text → Variables → Variables → Result Text Text)
    (execute_job : Text → Job → Outcome) where
  unfoldable pub execute : Task → List Job → List Text → Execution
  execute t [] log = ((t, log), none)
  execute t (job ∷ jobs) log = elim (parse_template job.command job.vars job.env) [
    | err e ↦ ((t, log), some e)
    | ok cmd ↦
        let log' = log ++ cmd ∷ [] in
        elim (execute_job cmd job) [
          | passed ↦ execute t jobs log'
          | exit_status status e ↦
              let t' = with_exit_code t status in
              let rest = execute t' jobs log' in
              if t.allow_failure then rest else ((with_error t' e, log'), some e)
          | failed e ↦ ((with_error t e, log'), some e)
        ]
  ]
