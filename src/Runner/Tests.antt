-- ===== src/Runner/Tests.antt =====
-- The loop over three jobs.
use eirctl.Prelude.{
  ◌≡◌, refl, true, false, List, [], ◌∷◌, ◌++◌, none, some, Text, codes, Result, ok, All, text_eq,
  if◌then◌else◌,
}
use eirctl.Variables.{Variables}
use eirctl.Task.{Task, new_task, with_exit_code}
use eirctl.Runner.{Job, Outcome, passed, exit_status, execute}
use eirctl.Runner.Execute.{goes_on, commands, last_status, execute_lem}

abbrev job : Text → Job
job command = record {
  command = command;
  dir = [];
  env = record { m = [] };
  vars = record { m = [] };
  timeout = none;
  is_shell = false;
}

-- Templates without actions, and a shell in which only `false` fails.
abbrev plain : Text → Variables → Variables → Result Text Text
plain command vars env = ok command

unfoldable shell : Text → Job → Outcome
shell cmd j = if text_eq cmd (codes "false") then exit_status 1 (codes "exit 1") else passed

abbrev jobs : List Job
jobs = job (codes "make") ∷ job (codes "false") ∷ job (codes "ls") ∷ []

abbrev tolerant : Task
unfolding new_task
tolerant = record (new_task (codes "build")) { allow_failure = true }

execute-tolerant :
    execute plain shell tolerant jobs []
    ≡ ((with_exit_code tolerant 1, codes "make" ∷ codes "false" ∷ codes "ls" ∷ []), none)
unfolding execute shell text_eq tolerant new_task
execute-tolerant = refl

execute-strict :
    (execute plain shell (record tolerant { allow_failure = false }) jobs []).1
    ≡ some (codes "exit 1")
unfolding execute shell text_eq tolerant new_task
execute-strict = refl

execute_lem_example :
    (All (λ j. goes_on plain shell tolerant.allow_failure j ≡ true) jobs
      → execute plain shell tolerant jobs [] ≡ (
        (
          with_exit_code tolerant (last_status plain shell tolerant.exit_code jobs),
          [] ++ commands plain shell jobs,
        ),
        none,
      ))
    × ((execute plain shell tolerant jobs []).1 ≡ none
        → All (λ j. goes_on plain shell tolerant.allow_failure j ≡ true) jobs)
execute_lem_example = execute_lem plain shell tolerant jobs []
