-- ===== src/Context/Tests.antt =====
-- The environment of a small context, and the theorems about it.
use eirctl.Prelude.{
  ◌≡◌, refl, false, List, [], ◌∷◌, Option, none, some, Text, codes, Map, lookup, insert, insert_all,
  text_eq, elem, has_prefix, ok, err,
}
use eirctl.Variables.{Any, str, Variables, new_variables, from_map, str_values, to_map, merge}
use eirctl.Envfile.{new_envfile}
use eirctl.EnvLines.{prepend, split, join, env_line, convert_from_env, store_parts, store_lines}
use eirctl.Strings.{to_lower, lower_char}
use eirctl.Context.{
  ExecutionContext, has_some_prefix, include_exclude_skip, modify_name, builder, envfile_env,
  is_none, process_envfile, run_up,
}
use eirctl.Context.Hooks.{run_up_once}

unfoldable pub processing : Unit {0}
unfolding process_envfile envfile_env builder modify_name include_exclude_skip has_some_prefix
    to_lower lower_char is_none convert_from_env store_lines store_parts env_line split prepend join
    from_map str_values to_map merge insert_all insert new_variables new_envfile lookup text_eq elem
    has_prefix
processing = tt

abbrev pub context : ExecutionContext
context = record {
  source_file = [];
  executable = none;
  container = none;
  dir = [];
  env = record { m = [] };
  envfile = record {
    exclude = codes "path" ∷ [];
    include = [];
    path_value = [];
    replace_char = codes " ";
    quote = false;
    modify = [];
    generated_dir = codes ".eirctl";
  };
  variables = record { m = [] };
  quote = codes "'";
  up = codes "start" ∷ codes "wait" ∷ [];
  down = [];
  before = [];
  after = [];
  startup_error = none;
  once_up = false;
  once_down = false;
}

abbrev pub print : Any → Text
print (str t) = t
print _ = codes "?"

abbrev pub no_match : Text → Text → Option (Text × Text)
no_match pattern name = none

abbrev pub files : List (Map Text)
files = ((codes "TOKEN", codes "old") ∷ (codes "MODE", codes "a=b") ∷ []) ∷ []

abbrev pub env : Variables
env = record { m = (codes "TOKEN", str (codes "new")) ∷ (codes "PATH", str (codes "/bin")) ∷ [] }

abbrev processed : ExecutionContext
unfolding processing
processed = elim (process_envfile print no_match files env context) [ ok c ↦ c | err e ↦ context ]

processed_env :
    processed.env.m ≡ (codes "TOKEN", str (codes "new")) ∷ (codes "MODE", str (codes "a=b")) ∷ []
unfolding processing
processed_env = refl

run_up_once_example :
    (((run_up (λ _. some (codes "failed")) context []).0).1 ≡ context.up)
    × (run_up
          (λ _. none)
          ((run_up (λ _. some (codes "failed")) context []).0).0
          ((run_up (λ _. some (codes "failed")) context []).0).1
        ≡ run_up (λ _. some (codes "failed")) context [])
run_up_once_example = run_up_once (λ _. some (codes "failed")) (λ _. none) context [] refl
