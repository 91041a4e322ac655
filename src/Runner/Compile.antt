-- ===== src/Runner/Compile.antt =====
-- runner/compiler.go: a task becomes a job for each variation and command. Compiling a command
-- writes the environment into the context, so the context is passed on from job to job. The
-- reader and the writers of a job are left out, and a context always has an envfile.
pub mod Order
pub mod Tests
use eirctl.Prelude.{
  ℕ, Bool, true, false, List, [], ◌∷◌, ◌++◌, Option, none, some, Text, codes, Map, Result, ok, err,
  ◌>>=◌, if◌then◌else◌,
}
use eirctl.Variables.{Any, Variables, from_map, merge}
use eirctl.EnvLines.{join}
use eirctl.Context.{ExecutionContext, ContextFault, process_envfile}
use eirctl.Task.{Task, Missing, has_required, check_required, get_variations}
use eirctl.Runner.{Job}

pub data CompileFault : Type 0 where
  context_fault : ContextFault → CompileFault
  template_fault : Text → CompileFault
  input_missing : Missing → CompileFault

-- The line that is executed: the command, or an executable with the quoted command.
unfoldable pub command_line : ExecutionContext → Text → Text
command_line c command = elim c.executable [
  | none ↦ join (codes " ") (command ∷ [])
  | some e ↦ join (codes " ") (e.bin ∷ (e.args ++ (c.quote ++ command ++ c.quote) ∷ []))
]

-- The check of what a task requires.
unfoldable pub check_inputs : Task → Variables → Variables → Result CompileFault (Unit {0})
check_inputs t env vars = elim t.required [
  | none ↦ ok tt
  | some ri ↦
      if has_required ri
      then elim (check_required ri env vars) [ err m ↦ err (input_missing m) | ok _ ↦ ok tt ]
      else ok tt
]

unfoldable pub job_dir : Text → ExecutionContext → Text
job_dir [] c = c.dir
job_dir (d ∷ dir) c = d ∷ dir

-- The libraries: the printing of values, the named groups of a match, and templates.
module _ (show : Any → Text) (find : Text → Text → Option (Text × Text))
    (parse_template : Text → Variables → Variables → Result Text Text) where
  unfoldable pub set_context_env :
      List (Map Text) → Variables → ExecutionContext → Result CompileFault ExecutionContext
  set_context_env files env c = elim (process_envfile show find files env c) [
    | err e ↦ err (context_fault e)
    | ok c' ↦ ok c'
  ]

  unfoldable pub render_dir : Text → Variables → Variables → Result CompileFault Text
  render_dir dir vars env = elim (parse_template dir vars env) [
    | err e ↦ err (template_fault e)
    | ok d ↦ ok d
  ]

  -- `compiler` holds the variables of the compiler, and `files` what the envfile's paths hold.
  unfoldable pub compile_command :
      Variables
      → List (Map Text)
      → Task
      → Text
      → Variables
      → Variables
      → ExecutionContext
      → Result CompileFault (ExecutionContext × Job)
  compile_command compiler files t command env vars c = do
    c' ← set_context_env files env c
    let job_vars = merge (some compiler) vars
    dir ← render_dir (job_dir t.dir c') job_vars c'.env
    _ ← check_inputs t (merge (some c'.env) t.env) job_vars
    ok (
      c',
      record {
        command = command_line c' command;
        dir = dir;
        env = c'.env;
        vars = job_vars;
        timeout = t.timeout;
        is_shell = false;
      },
    )

  unfoldable pub compile_commands :
      Variables
      → List (Map Text)
      → Task
      → List Text
      → Variables
      → Variables
      → ExecutionContext
      → Result CompileFault (ExecutionContext × List Job)
  compile_commands compiler files t [] env vars c = ok (c, [])
  compile_commands compiler files t (command ∷ rest) env vars c = do
    (c', job) ← compile_command compiler files t command env vars c
    (c'', jobs) ← compile_commands compiler files t rest env vars c'
    ok (c'', job ∷ jobs)

  -- The jobs of every variation, in order.
  unfoldable pub compile_variations :
      Variables
      → List (Map Text)
      → Task
      → List (Map Text)
      → Variables
      → Variables
      → ExecutionContext
      → Result CompileFault (ExecutionContext × List Job)
  compile_variations compiler files t [] env vars c = ok (c, [])
  compile_variations compiler files t (variant ∷ rest) env vars c = do
    (c', jobs) ←
        compile_commands compiler files t t.commands (merge (some env) (from_map variant)) vars c
    (c'', more) ← compile_variations compiler files t rest env vars c'
    ok (c'', jobs ++ more)
