-- ===== src/Task.antt =====
-- task/task.go: a task with its settings and what a run leaves in it. Start and end times are
-- left out; the locks around single fields are, too.
pub mod Required
pub mod Tests
use eirctl.Prelude.{
  ℕ, Bool, true, false, not, List, [], ◌∷◌, ◌++◌, Option, none, some, Text, codes, Map, insert,
  Result, ok, err, if◌then◌else◌, length, ltb, ◌+◌,
}
use eirctl.Variables.{Any, str, Variables, new_variables, has_key, merge, with}
use eirctl.Envfile.{Envfile, new_envfile}

pub record Artifact : Type 0 where
  pub name : Text
  pub path : Text
  pub type : Text

pub record RequiredInput : Type 0 where
  pub vars : List Text
  pub env : List Text
  pub args : List Text

pub record Task : Type 0 where
  pub commands : List Text
  pub context : Text
  pub env : Variables
  pub env_file : Option Envfile
  pub variables : Variables
  pub variations : Option (List (Map Text))
  pub dir : Text
  pub timeout : Option ℕ
  pub allow_failure : Bool
  pub after : List Text
  pub before : List Text
  pub interactive : Bool
  pub reset_context : Bool
  pub condition : Text
  pub artifacts : Option Artifact
  pub name : Text
  pub description : Text
  pub required : Option RequiredInput
  pub skipped : Bool
  -- An `int16`, by its bits.
  pub exit_code : ℕ
  pub errored : Bool
  pub error_val : Option Text
  pub captured_output : Map Text
  pub generator : Map Any
  pub source_file : Text

unfoldable pub new_task : Text → Task
new_task name = record {
  commands = [];
  context = [];
  env = new_variables;
  env_file = some new_envfile;
  variables = new_variables;
  variations = none;
  dir = [];
  timeout = none;
  allow_failure = false;
  after = [];
  before = [];
  interactive = false;
  reset_context = false;
  condition = [];
  artifacts = none;
  name = name;
  description = [];
  required = some (record { vars = []; env = []; args = [] });
  skipped = false;
  exit_code = 65535;
  errored = false;
  error_val = none;
  captured_output = [];
  generator = [];
  source_file = [];
}

unfoldable pub has_required : RequiredInput → Bool
has_required ri = ltb 0 (length ri.args + length ri.vars + length ri.env)

-- Which names are missing, and of which of the two lists.
pub data Missing : Type 0 where
  env_missing : List Text → Missing
  vars_missing : List Text → Missing

unfoldable pub not_found : Variables → List Text → List Text
not_found have [] = []
not_found have (v ∷ names) =
    let rest = not_found have names in if not (has_key have v) then v ∷ rest else rest

-- What the names that the two loops found give; where the second one starts, the first found none.
unfoldable pub required_outcome : List Text → List Text → Result Missing (Unit {0})
required_outcome (e ∷ es) vs = err (env_missing (e ∷ es))
required_outcome [] (v ∷ vs) = err (vars_missing (v ∷ vs))
required_outcome [] [] = ok tt

unfoldable pub check_required : RequiredInput → Variables → Variables → Result Missing (Unit {0})
check_required ri env vars = required_outcome (not_found env ri.env) (not_found vars ri.vars)

unfoldable pub with_skipped : Task → Bool → Task
with_skipped t val = record t { skipped = val }

unfoldable pub with_exit_code : Task → ℕ → Task
with_exit_code t val = record t { exit_code = val }

unfoldable pub with_error : Task → Text → Task
with_error t val = record t { errored = true; error_val = some val }

unfoldable pub with_env : Task → Text → Text → Task
with_env t key value = record t { env = with t.env key (str value) }

unfoldable pub from_commands : Text → List Text → Task
from_commands name commands = record (new_task name) { commands = commands }

-- One empty map where there is no variation, for the default job; a list that is there but is
-- empty gives no job.
unfoldable pub get_variations : Task → List (Map Text)
get_variations t = elim t.variations [ none ↦ [] ∷ [] | some l ↦ l ]
