-- ===== src/Envfile.antt =====
-- The `Envfile` of internal/utils/utils.go.
use eirctl.Prelude.{Bool, false, List, [], Text, codes}

pub record ModifyEnv : Type 0 where
  pub pattern : Text
  pub operation : Text

pub record Envfile : Type 0 where
  pub exclude : List Text
  pub include : List Text
  pub path_value : List Text
  pub replace_char : Text
  pub quote : Bool
  pub modify : List ModifyEnv
  pub generated_dir : Text

-- `&Envfile{}` with the two defaults of `NewEnvFile`.
unfoldable pub new_envfile : Envfile
new_envfile = record {
  exclude = [];
  include = [];
  path_value = [];
  replace_char = codes " ";
  quote = false;
  modify = [];
  generated_dir = codes ".eirctl";
}
