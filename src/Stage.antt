-- ===== src/Stage.antt =====
-- scheduler/stage.go: a node of the execution graph. Tasks and pipelines are pointers in the
-- source: here they are the keys under which the configuration holds them.
pub mod Order
use eirctl.Prelude.{
  Bool, true, false, List, [], ◌∷◌, Option, none, some, Text, text_eq, text_lt, Map, elem, length,
  ltb, if◌then◌else◌,
}
use eirctl.Variables.{Any, Variables, new_variables, merge}
use eirctl.Envfile.{Envfile, new_envfile}

pub data Status : Type 0 where
  waiting running skipped done error canceled : Status

pub record Stage : Type 0 where
  pub name : Text
  pub condition : Text
  pub task : Option Text
  pub pipeline : Option Text
  pub alias : Text
  pub depends_on : List Text
  pub dir : Text
  pub allow_failure : Bool
  pub status : Status
  pub env : Variables
  pub envfile : Option Envfile
  pub variables : Variables
  pub generator : Map Any

-- The options run first; the name and the status are set last, whatever they did.
unfoldable pub new_stage : Text → (Stage → Stage) → Stage
new_stage name opts =
    let s = opts (record {
      name = [];
      condition = [];
      task = none;
      pipeline = none;
      alias = [];
      depends_on = [];
      dir = [];
      allow_failure = false;
      status = Status.waiting;
      env = new_variables;
      envfile = some new_envfile;
      variables = new_variables;
      generator = [];
    }) in
    record s { name = name; status = Status.waiting }

unfoldable pub with_env : Stage → Variables → Stage
with_env s v = record s { env = merge (some s.env) v }

unfoldable pub with_envfile : Stage → Option Envfile → Stage
with_envfile s v = record s { envfile = v }

unfoldable pub with_variables : Stage → Variables → Stage
with_variables s v = record s { variables = merge (some s.variables) v }

-- `EnvFile()` fills in a missing envfile.
unfoldable pub env_file : Stage → Stage × Envfile
env_file s = elim s.envfile [
  | some e ↦ (s, e)
  | none ↦ (record s { envfile = some new_envfile }, new_envfile)
]

unfoldable pub update_status : Stage → Status → Stage
update_status s status = record s { status = status }

-- `StageList.Less(i, j)`, of the stages at the two places.
unfoldable pub less : Stage → Stage → Bool
less i j =
    if elem i.name j.depends_on
    then true
    else if elem j.name i.depends_on
    then false
    else if ltb (length j.depends_on) (length i.depends_on)
    then false
    else text_lt i.name j.name
