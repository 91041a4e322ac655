-- ===== src/Config/ContextEnvfile.antt =====
-- `newEnvFile` of internal/config/context.go, and `Validate` of internal/utils/utils.go: the
-- envfile of a context.
pub mod Include
pub mod Tests
use eirctl.Prelude.{
  Bool, true, false, ◌&&◌, List, [], ◌∷◌, ◌++◌, Option, none, some, Text, codes, contains, Result,
  ok, err, if◌then◌else◌,
}
use eirctl.Envfile.{Envfile, ModifyEnv, new_envfile}

abbrev pub default_container_excludes : List Text
default_container_excludes = codes "PATH" ∷ codes "HOME" ∷ codes "TMPDIR" ∷ []

unfoldable pub is_valid : ModifyEnv → Bool
is_valid me = contains me.pattern (codes "keyword") && contains me.pattern (codes "varname")

unfoldable pub all_valid : List ModifyEnv → Bool
all_valid [] = true
all_valid (m ∷ modify) = is_valid m && all_valid modify

-- `nil_dereference` is the panic of the runtime.
pub data EnvfileFault : Type 0 where
  invalid_options nil_dereference : EnvfileFault

unfoldable pub validate : Envfile → Result EnvfileFault (Unit {0})
validate e = if all_valid e.modify then ok tt else err invalid_options

-- What is copied from a definition; the directory stays the default.
unfoldable pub copy_envfile : Envfile → Bool → Envfile
copy_envfile d is_container_context = record new_envfile {
  exclude = if is_container_context then d.exclude ++ default_container_excludes else d.exclude;
  path_value = d.path_value;
  include = d.include;
  modify = d.modify;
  quote = d.quote;
  replace_char = d.replace_char;
}

unfoldable pub new_env_file : Option Envfile → Bool → Result EnvfileFault (Option Envfile)
new_env_file none is_container_context =
    if is_container_context then err nil_dereference else ok none
new_env_file (some d) is_container_context = elim (validate d) [
  | err e ↦ err e
  | ok _ ↦ ok (some (copy_envfile d is_container_context))
]
