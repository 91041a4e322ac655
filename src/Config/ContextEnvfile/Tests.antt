-- ===== src/Config/ContextEnvfile/Tests.antt =====
-- An include list for a container.
use eirctl.Prelude.{◌≡◌, ◌≢◌, refl, true, [], ◌∷◌, some, codes, ok, err}
use eirctl.Envfile.{Envfile, new_envfile}
use eirctl.Context.{ExecutionContext, mutually_exclusive, process_envfile}
use eirctl.Context.Tests.{context, print, no_match, env, files}
use eirctl.Config.ContextEnvfile.{all_valid, validate, copy_envfile, new_env_file}
use eirctl.Config.ContextEnvfile.Include.{new_env_file_include}

abbrev defined : Envfile
unfolding new_envfile
defined = record new_envfile { include = codes "TF_VAR_" ∷ [] }

abbrev container_context : ExecutionContext
unfolding copy_envfile
container_context = record context {
  container = some (codes "alpine");
  envfile = copy_envfile defined true;
}

new_env_file-defined : new_env_file (some defined) true ≡ ok (some container_context.envfile)
unfolding new_env_file validate all_valid copy_envfile new_envfile container_context defined
new_env_file-defined = refl

include_given : defined.include ≢ []
unfolding defined
include_given e = cc

new_env_file_include_example :
    process_envfile print no_match files env container_context ≡ err mutually_exclusive
new_env_file_include_example =
    new_env_file_include print no_match files env container_context defined include_given
      new_env_file-defined
