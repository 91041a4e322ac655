-- ===== src/Loader/Imports.antt =====
-- `load`, `parseImports` and `loadDir`: the recursion over imports, where a source that has been
-- visited is left out. `load` is given to the loops over the entries as an argument.
use eirctl.Prelude.{
  ℕ, zero, suc, Bool, true, false, ◌||◌, List, [], ◌∷◌, none, some, Text, codes, elem, text_eq, ok,
  err, if◌then◌else◌,
}
use eirctl.Config.Definitions.{ImportEntry, ConfigDefinition, no_config}
use eirctl.Loader.{
  LoadState, import_missing, glob_failed, out_of_fuel, Host, LoadOutcome, ◌andthen◌, is_git,
}
use eirctl.Loader.Sources.{get_config}
use eirctl.Loader.Merge.{merge_existing_with_imported}

abbrev pub Loading : Type 0
Loading = ImportEntry → LoadState → LoadOutcome ConfigDefinition

unfoldable pub is_visited : LoadState → Text → Bool
is_visited s src = elem src s.imports

unfoldable pub merged :
    (base imported : ConfigDefinition) → Text → LoadState → LoadOutcome ConfigDefinition
merged base imported path s = (s, merge_existing_with_imported base imported path)

abbrev pub entry_of : Text → ImportEntry
entry_of src = record { src = src; hash = []; dest = [] }

module _ (host : Host) (import_dir : Text) where
  -- The path of an import that is a file.
  unfoldable pub import_file : ImportEntry → Text
  import_file entry =
      if host.is_abs entry.src
      then entry.src
      else if text_eq import_dir (codes "http:")
      then []
      else host.join import_dir entry.src

  unfoldable pub is_remote : ImportEntry → Bool
  is_remote entry = host.is_url entry.src || is_git entry.src

  -- What the entry is called in the set of visited sources.
  unfoldable pub source : ImportEntry → Text
  source entry = if is_remote entry then entry.src else import_file entry

module _ (load : Loading) where
  -- The files of a directory, each of which is merged.
  unfoldable pub load_files :
      List Text → ConfigDefinition → LoadState → LoadOutcome ConfigDefinition
  load_files [] base s = (s, ok base)
  load_files (file ∷ files) base s = elim (is_visited s file) [
    | true ↦ load_files files base s
    | false ↦
        load (entry_of file) s
        andthen (λ s imported. merged base imported file s)
        andthen (λ s base. load_files files base s)
  ]

  unfoldable pub load_dir : Host → Text → LoadState → LoadOutcome ConfigDefinition
  load_dir host dir s = elim (host.glob s.writes (host.join dir (codes "*.yaml"))) [
    | none ↦ (s, err (glob_failed dir))
    | some files ↦ load_files files no_config s
  ]

  module _ (host : Host) (import_dir : Text) where
    unfoldable pub load_import : ImportEntry → LoadState → LoadOutcome ConfigDefinition
    load_import entry s =
        if is_remote host import_dir entry
        then load entry s
        else let file = import_file host import_dir entry in
          elim (host.is_dir s.writes file) [
            | none ↦ (s, err (import_missing file))
            | some true ↦ load_dir host file s
            | some false ↦ load (record entry { src = file }) s
          ]

    unfoldable pub parse_imports :
        List ImportEntry → ConfigDefinition → LoadState → LoadOutcome ConfigDefinition
    parse_imports [] base s = (s, ok base)
    parse_imports (entry ∷ entries) base s = elim (is_visited s (source host import_dir entry)) [
      | true ↦ parse_imports entries base s
      | false ↦
          load_import entry s
          andthen (λ s imported. merged base imported (source host import_dir entry) s)
          andthen (λ s base. parse_imports entries base s)
    ]

-- The recursion gets fuel for its depth.
unfoldable pub load : Host → (base_dir : Text) → ℕ → Loading
load host base_dir zero file s = (s, err out_of_fuel)
load host base_dir (suc fuel) file s =
    get_config host base_dir file (record s { imports = file.src ∷ s.imports }) andthen λ s config.
    parse_imports (load host base_dir fuel) host (host.dir_of file.src) config.imports config s
