-- ===== src/Runner/Compile/Tests.antt =====
-- A task of two commands in two variations.
use eirctl.Prelude.{◌≡◌, refl, List, [], ◌∷◌, Text, codes, Map, Result, ok, err, length}
use eirctl.Variables.{Variables}
use eirctl.EnvLines.{join}
use eirctl.Task.{Task, new_task, has_required}
use eirctl.Context.{ExecutionContext}
use eirctl.Context.Tests.{context, print, no_match, env, processing}
use eirctl.Runner.{Job}
use eirctl.Runner.Compile.{
  command_line, check_inputs, job_dir, set_context_env, render_dir, compile_command,
  compile_commands, compile_variations,
}
use eirctl.Runner.Compile.Order.{lines_of, all_lines, compile_variations_lines}

abbrev plain : Text → Variables → Variables → Result Text Text
plain text vars values = ok text

unfoldable compiling : Unit {0}
unfolding processing compile_variations compile_commands compile_command command_line check_inputs
    job_dir set_context_env render_dir has_required join new_task
compiling = tt

abbrev both : Task
unfolding new_task
both = record (new_task (codes "both")) { commands = codes "make" ∷ codes "make test" ∷ [] }

abbrev variations : List (Map Text)
variations = ((codes "OS", codes "linux") ∷ []) ∷ ((codes "OS", codes "darwin") ∷ []) ∷ []

abbrev vars : Variables
vars = record { m = [] }

abbrev compiled : ExecutionContext × List Job
unfolding compiling both
compiled = elim (compile_variations print no_match plain vars [] both variations env vars context) [
  | ok r ↦ r
  | err e ↦ (context, [])
]

compile_variations-both :
    compile_variations print no_match plain vars [] both variations env vars context
    ≡ ok (compiled.0, compiled.1)
unfolding compiling both compiled
compile_variations-both = refl

length-compiled : length compiled.1 ≡ 4
unfolding compiling both compiled
length-compiled = refl

compile_variations_lines_example :
    lines_of compiled.1 ≡ all_lines (command_line context) both.commands variations
compile_variations_lines_example =
    compile_variations_lines print no_match plain vars [] both variations env vars context
      compiled.0 compiled.1 compile_variations-both
