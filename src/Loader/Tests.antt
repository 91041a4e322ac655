-- ===== src/Loader/Tests.antt =====
-- A configuration that imports a file of definitions and a script by URL, which imports back.
use eirctl.Prelude.{
  ◌≡◌, ◌≢◌, refl, sym, ap, ◌↔◌, inl, inr, true, false, List, [], ◌∷◌, ◌++◌, Option, none, some,
  Text, codes, IsMap, In, ok, err, text_eq, elem, has, lookup, insert, has_prefix, if◌then◌else◌,
  subst, Bool-cases, suc, length, ◌⊎◌, ◌<◌, arith, text_eq_iff,
}
use eirctl.Strings.{is_empty}
use eirctl.Config.Definitions.{ImportEntry, ConfigDefinition, TaskDefinition, no_config}
use eirctl.Loader.{LoadState, out_of_fuel, Host, is_git}
use eirctl.Loader.Store.{
  is_file_import, split_colon, has_hash, verify_hash, clean_dest, store_imported_file,
  write_imported_file,
}
use eirctl.Loader.Sources.{
  consume, store_in_cache, cache_get, cached, read_url, read_git, read_file, get_config,
}
use eirctl.Loader.Merge.{
  merge_kind, task_from, pipeline_from, context_from, merge_existing_with_imported,
}
use eirctl.Loader.Imports.{
  is_visited, merged, load_files, load_dir, import_file, is_remote, source, load_import,
  parse_imports, load,
}
use eirctl.Loader.Default.{
  resolve_default_config_file, IsUpward, IsNearest, resolve_default_config_file-IsNearest,
}
use eirctl.Loader.Ends.{IsGlobbed}
use eirctl.Loader.Decoded.{IsDecoded, get_config-Gives}
use eirctl.Loader.Total.{IsClosed, load-ends}
use eirctl.Loader.Rooted.{IsCopied, IsSound, load-IsSound}
use eirctl.Loader.Merged.{IsApart, IsJoined, merge_existing_with_imported_lem}

unfoldable loading : Unit {0}
unfolding is_empty is_git is_file_import split_colon has_hash verify_hash clean_dest
    store_imported_file write_imported_file consume store_in_cache cache_get cached read_url
    read_git read_file get_config merge_kind merge_existing_with_imported is_visited merged
    load_files load_dir import_file is_remote source load_import parse_imports load text_eq elem has
    lookup insert has_prefix
loading = tt

abbrev no_task : TaskDefinition
no_task = record {
  source_file = [];
  name = [];
  description = [];
  condition = [];
  command = [];
  after = [];
  before = [];
  context = [];
  variations = [];
  dir = [];
  timeout = none;
  allow_failure = false;
  interactive = false;
  artifacts = none;
  env = [];
  envfile = none;
  variables = [];
  reset_context = false;
  generator = [];
  required = none;
}

abbrev entry : Text → Text → ImportEntry
entry src dest = record { src = src; hash = []; dest = dest }

abbrev main_file : Text
main_file = codes "/p/eirctl.yaml"

abbrev lib_file : Text
lib_file = codes "/p/lib.yaml"

abbrev script_url : Text
script_url = codes "http://h/run.sh"

abbrev main_config : ConfigDefinition
main_config = record no_config {
  imports = entry lib_file [] ∷ entry script_url (codes "run.sh") ∷ [];
  tasks = (codes "build", no_task) ∷ [];
}

abbrev lib_config : ConfigDefinition
lib_config = record no_config {
  imports = entry main_file [] ∷ [];
  tasks = (codes "lint", no_task) ∷ [];
}

-- Paths are absolute here and are kept as they are; files hold their own names.
abbrev host : Host
host = record {
  work_dir = codes "/w";
  clean = λ path. path;
  join = λ dir name. dir ++ codes "/" ++ name;
  is_abs = λ path. has_prefix path (codes "/");
  dir_of = λ path. codes "/p";
  is_url = λ src. has_prefix src (codes "http");
  cache_path = λ src. src;
  digest = λ content. content;
  can_make_dir = λ path. true;
  can_create = λ path. has_prefix path (codes "/");
  copy = λ path content. record {
    written = content.text;
    taken = content.text;
    is_failed = content.is_broken;
  };
  read_cache = λ path content. record { text = content; is_broken = false };
  http_get = λ src. some (200, record { text = codes "echo"; is_broken = false });
  git_file = λ src. none;
  file_exists = λ writes path. true;
  open_file = λ writes path. some (record { text = path; is_broken = false });
  is_dir = λ writes path. some false;
  glob = λ writes pattern. none;
  decode = λ kind content. some (
      if text_eq content.text main_file
      then main_config
      else if text_eq content.text lib_file
      then lib_config
      else no_config);
}

abbrev fresh : LoadState
fresh = record { imports = []; cache = []; writes = [] }

abbrev sources : List Text
sources = main_file ∷ lib_file ∷ script_url ∷ []

-- The task of the import is there with its path, and the script was written, but empty,
-- since the cache cannot be created.
load-example : load host (codes "/p") 3 (entry main_file []) fresh ≡ (
  record {
    imports = script_url ∷ lib_file ∷ main_file ∷ [];
    cache = [];
    writes =
        record {
          base_dir = codes "/p";
          entry = entry script_url (codes "run.sh");
          dest = codes "/p/run.sh";
          content = [];
          is_whole = true;
        }
        ∷ [];
  },
  ok (record main_config {
    tasks =
        (codes "build", no_task) ∷ (codes "lint", record no_task { source_file = lib_file }) ∷ [];
  }),
)
unfolding loading
load-example = refl

-- From the cache the script is written below the working directory.
cached-example :
    (get_config host
      (codes "/p")
      (entry script_url (codes "run.sh"))
      (record fresh { cache = (script_url, codes "echo") ∷ [] })).0.writes
    ≡ record {
      base_dir = codes "/w";
      entry = entry script_url (codes "run.sh");
      dest = codes "/w/run.sh";
      content = codes "echo";
      is_whole = true;
    }
      ∷ []
unfolding loading
cached-example = refl

host-IsGlobbed : IsGlobbed host sources
host-IsGlobbed writes pattern files e file i = absurd (cc)

-- What can be decoded imports nothing but the three sources.
abbrev ImportsSources : ConfigDefinition → Type 0
ImportsSources config =
    (imported : ImportEntry)
    → In imported config.imports
    → In (source host (codes "/p") imported) sources

main_config-ImportsSources : ImportsSources main_config
unfolding loading
main_config-ImportsSources imported (inl e) = inr (inl (ap (λ q. source host (codes "/p") q) e))
main_config-ImportsSources imported (inr (inl e)) =
    inr (inr (inl (ap (λ q. source host (codes "/p") q) e)))
main_config-ImportsSources imported (inr (inr m)) = absurd m

lib_config-ImportsSources : ImportsSources lib_config
unfolding loading
lib_config-ImportsSources imported (inl e) = inl (ap (λ q. source host (codes "/p") q) e)
lib_config-ImportsSources imported (inr m) = absurd m

host-IsClosed : IsClosed host (codes "/p") sources
host-IsClosed entry s t config imported i e j =
    by_source config (get_config-Gives host (codes "/p") entry s t config e) imported j
  where
    same_of_some :
        {a b : ConfigDefinition} → ◌≡◌ {A = Option ConfigDefinition} (some a) (some b) → a ≡ b
    same_of_some q = cc

    by_content :
        (content : Text)
        → ImportsSources (
            if text_eq content main_file
            then main_config
            else if text_eq content lib_file
            then lib_config
            else no_config)
    by_content content = elim (Bool-cases (text_eq content main_file)) [
      | inl here ↦ rw here main_config-ImportsSources
      | inr other ↦ elim (Bool-cases (text_eq content lib_file)) [
        | inl here ↦ rw (other, here) lib_config-ImportsSources
        | inr another ↦ rw (other, another) (λ q m. absurd m)
      ]
    ]

    by_source :
        (config : ConfigDefinition) → IsDecoded host (codes "/p") config → ImportsSources config
    by_source config (inl nothing) = subst ImportsSources (sym nothing) (λ q m. absurd m)
    by_source config (inr (kind, content, decoded)) =
        subst ImportsSources (same_of_some decoded) (by_content content.text)

load-ends_example :
    (load host
      (codes "/p")
      3
      (entry main_file [])
      (record { imports = []; cache = []; writes = [] })).1
    ≢ err out_of_fuel
load-ends_example =
    load-ends host (codes "/p") sources host-IsGlobbed host-IsClosed (entry main_file []) [] []
      (inl refl)

host-IsCopied : IsCopied host
host-IsCopied path content unfailed = refl

fresh-IsSound : IsSound host (codes "/p") fresh
fresh-IsSound = tt

load-IsSound_example :
    IsSound host (codes "/p") (load host (codes "/p") 3 (entry main_file []) fresh).0
load-IsSound_example =
    load-IsSound host (codes "/p") host-IsCopied 3 (entry main_file []) fresh fresh-IsSound

build-apart : IsMap main_config.tasks
build-apart = (λ i. i, tt)

lint-apart : IsMap lib_config.tasks
lint-apart = (λ i. i, tt)

merge_existing_with_imported_lem_example :
    (((out : ConfigDefinition) × (merge_existing_with_imported main_config lib_config lib_file
          ≡ ok out))
      ↔ (IsApart lib_config.tasks main_config.tasks
          × IsApart lib_config.pipelines main_config.pipelines
          × IsApart lib_config.contexts main_config.contexts))
    × ((out : ConfigDefinition)
        → merge_existing_with_imported main_config lib_config lib_file ≡ ok out
        → IsJoined (task_from lib_file) lib_config.tasks main_config.tasks out.tasks
          × IsJoined
              (pipeline_from lib_file)
              lib_config.pipelines
              main_config.pipelines
              out.pipelines
          × IsJoined (context_from lib_file) lib_config.contexts main_config.contexts out.contexts
          × (out ≡ record main_config {
            tasks = out.tasks;
            pipelines = out.pipelines;
            contexts = out.contexts;
          }))
merge_existing_with_imported_lem_example =
    merge_existing_with_imported_lem main_config lib_config lib_file lint-apart tt tt

-- Every path has the root as its parent.
abbrev flat_host : Host
flat_host = record host { dir_of = λ path. codes "/" }

root_or_below :
    (d : Text) → has_prefix d (codes "/") ≡ true → (d ≡ codes "/") ⊎ (length (codes "/") < length d)
unfolding has_prefix text_eq
root_or_below [] e = absurd (cc)
root_or_below (c ∷ []) e = inl ((text_eq_iff (c ∷ []) (codes "/")).0 e)
root_or_below (c ∷ b ∷ cs) e = inr (omega arith)

flat_host-IsUpward : IsUpward flat_host fresh.writes
unfolding has_prefix
flat_host-IsUpward d rooted = (refl, root_or_below d rooted)

resolve_default_config_file-IsNearest_example :
    (resolve_default_config_file flat_host fresh.writes (suc (length (codes "/p"))) (codes "/p")
      ≢ err out_of_fuel)
    × ((found file : Text)
        → (resolve_default_config_file flat_host fresh.writes
              (suc (length (codes "/p")))
              (codes "/p")
            ≡ ok (found, file))
          ↔ IsNearest flat_host fresh.writes (codes "/p") found file)
unfolding has_prefix
resolve_default_config_file-IsNearest_example =
    resolve_default_config_file-IsNearest flat_host fresh.writes (codes "/p") flat_host-IsUpward
      refl
