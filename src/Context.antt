-- ===== src/Context.antt =====
-- runner/context.go: the context in which commands are executed. Its container is the image's
-- name here; a command is run by `execute`, which gives the error if there is one, and `log`
-- keeps which were.
pub mod Dropped
pub mod Process
pub mod Hooks
pub mod Tests
use eirctl.Prelude.{
  ℕ, Bool, true, false, not, ◌&&◌, ◌||◌, List, [], ◌∷◌, ◌++◌, Option, none, some, Text, codes, Map,
  Result, ok, err, elem, any, has_prefix, leb, if◌then◌else◌, map, ◌+◌, ◌-◌,
}
use eirctl.Variables.{Any, Variables, new_variables, from_map, to_map, merge}
use eirctl.Envfile.{Envfile, ModifyEnv}
use eirctl.Strings.{to_lower, to_upper}
use eirctl.EnvLines.{env_line, convert_from_env}

pub record Binary : Type 0 where
  pub bin : Text
  pub args : List Text

pub record ExecutionContext : Type 0 where
  pub source_file : Text
  pub executable : Option Binary
  pub container : Option Text
  pub dir : Text
  pub env : Variables
  pub envfile : Envfile
  pub variables : Variables
  pub quote : Text
  pub up : List Text
  pub down : List Text
  pub before : List Text
  pub after : List Text
  pub startup_error : Option Text
  -- Whether `onceUp` and `onceDown` are spent.
  pub once_up : Bool
  pub once_down : Bool

abbrev pub invalid_env_var_keys : List Text
invalid_env_var_keys = [] ∷ codes "!::" ∷ codes "=::" ∷ codes "::=::" ∷ codes "::=::\\" ∷ []

unfoldable pub has_some_prefix : Text → List Text → Bool
has_some_prefix s prefixes = any (λ v. has_prefix s (to_lower v)) prefixes

unfoldable pub include_exclude_skip : Envfile → Text → Bool
include_exclude_skip e var_name =
    let name = to_lower var_name in
    let should_exclude = has_some_prefix name e.exclude in
    let should_include : Bool = elim e.include [
      | [] ↦ true
      | v ∷ vs ↦ has_some_prefix name (v ∷ vs)
    ] in
    should_exclude || not should_include

-- The name that the first matching pattern makes; `find` gives the two named groups of a match.
unfoldable pub modify_name : (Text → Text → Option (Text × Text)) → List ModifyEnv → Text → Text
modify_name find [] var_name = var_name
modify_name find (m ∷ modify) var_name =
    let rest = modify_name find modify var_name in
    elim (find m.pattern var_name) [
      | none ↦ rest
      | some (keyword, matched) ↦
          if elem m.operation (codes "lower" ∷ [])
          then keyword ++ to_lower matched
          else if elem m.operation (codes "upper" ∷ [])
          then keyword ++ to_upper matched
          else keyword ++ matched
    ]

-- The lines of the loop over the environment; `show` prints a value as `%s` does.
unfoldable pub builder :
    (Any → Text) → (Text → Text → Option (Text × Text)) → Envfile → Map Any → List Text
builder show find e [] = []
builder show find e ((var_name, value) ∷ env) =
    let rest = builder show find e env in
    let name = modify_name find e.modify var_name in
    if elem var_name invalid_env_var_keys
    then rest
    else if include_exclude_skip e name
    then rest
    else env_line name (show value) ∷ rest

-- `files` is what is read from the paths of the envfile; the last one wins.
unfoldable pub envfile_env : List (Map Text) → Variables → Variables
envfile_env [] env = env
envfile_env (file ∷ files) env = envfile_env files (merge (some env) (from_map file))

pub data ContextFault : Type 0 where
  mutually_exclusive : ContextFault

unfoldable pub is_none : List Text → Bool
is_none [] = true
is_none (x ∷ xs) = false

unfoldable pub process_envfile :
    (Any → Text)
    → (Text → Text → Option (Text × Text))
    → List (Map Text)
    → Variables
    → ExecutionContext
    → Result ContextFault ExecutionContext
process_envfile show find files env c =
    if not (is_none c.envfile.exclude) && not (is_none c.envfile.include)
    then err mutually_exclusive
    else let all = merge (some (envfile_env files new_variables)) env in
      ok (record c { env = from_map (convert_from_env (builder show find c.envfile (to_map all))) })

-- The commands run one after another: `up` and `down` go on after a failure, and the last error
-- stands.
unfoldable pub run_all :
    (Text → Option Text) → List Text → List Text → Option Text → List Text × Option Text
run_all execute [] log last = (log, last)
run_all execute (command ∷ commands) log last = elim (execute command) [
  | none ↦ run_all execute commands (log ++ command ∷ []) last
  | some e ↦ run_all execute commands (log ++ command ∷ []) (some e)
]

-- `Up` runs its commands once; its error stays.
unfoldable pub run_up :
    (Text → Option Text)
    → ExecutionContext
    → List Text
    → (ExecutionContext × List Text) × Option Text
run_up execute c log =
    if c.once_up
    then ((c, log), c.startup_error)
    else let (log', failure) = run_all execute c.up log c.startup_error in
      ((record c { once_up = true; startup_error = failure }, log'), failure)

unfoldable pub run_down :
    (Text → Option Text) → ExecutionContext → List Text → ExecutionContext × List Text
run_down execute c log =
    if c.once_down
    then (c, log)
    else (record c { once_down = true }, (run_all execute c.down log none).0)

-- `Before` and `After` stop at the first failure.
unfoldable pub run_until : (Text → Option Text) → List Text → List Text → List Text × Option Text
run_until execute [] log = (log, none)
run_until execute (command ∷ commands) log = elim (execute command) [
  | none ↦ run_until execute commands (log ++ command ∷ [])
  | some e ↦ (log ++ command ∷ [], some e)
]

unfoldable pub run_before :
    (Text → Option Text) → ExecutionContext → List Text → List Text × Option Text
run_before execute c log = run_until execute c.before log

unfoldable pub run_after :
    (Text → Option Text) → ExecutionContext → List Text → List Text × Option Text
run_after execute c log = run_until execute c.after log
