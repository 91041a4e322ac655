-- ===== src/Loader/Rooted.antt =====
-- Every file that a load writes, through all its imports, is one that an entry asks for.
use eirctl.Prelude.{
  ◌≡◌, refl, sym, subst, ◌∙◌, ◌⊎◌, has_prefix, ℕ, zero, suc, Bool, true, false, List, [], ◌∷◌,
  Option, none, some, Text, codes, ok, err, Bool-cases, Option-cases, inl, inr, All, All-append,
}
use eirctl.Config.Definitions.{ImportEntry, ConfigDefinition, no_config}
use eirctl.Loader.{LoadState, Stream, Write, Host, LoadOutcome, ◌andthen◌}
use eirctl.Loader.Store.{clean_dest}
use eirctl.Loader.Sources.{get_config}
use eirctl.Loader.Imports.{
  Loading, is_visited, merged, entry_of, load_files, load_dir, import_file, is_remote, source,
  load_import, parse_imports, load,
}
use eirctl.Loader.Written.{IsVerified, IsStored, get_config-IsGood}

-- A copy from a reader that does not fail is the whole text.
abbrev pub IsCopied : Host → Type 0
IsCopied host =
    (path : Text) (content : Stream)
    → (host.copy path content).is_failed ≡ false
    → (host.copy path content).written ≡ content.text

-- The file is at the path of its entry, below the loader's directory or that in which the loader
-- was made, and if it is whole, it has the entry's digest.
abbrev pub IsAllowed : Host → Text → Write → Type 0
IsAllowed host base_dir write =
    ((write.base_dir ≡ base_dir) ⊎ (write.base_dir ≡ host.work_dir))
    × (write.dest ≡ clean_dest host write.base_dir write.entry.dest)
    × (has_prefix write.dest (host.clean write.base_dir) ≡ true)
    × (write.is_whole ≡ true → IsVerified host base_dir write.entry write.content)

-- Every file that was written is allowed.
abbrev pub IsSound : Host → Text → LoadState → Type 0
IsSound host base_dir s = All (IsAllowed host base_dir) s.writes

module _ (host : Host) (base_dir : Text) (copies : IsCopied host) where
  IsStored-IsAllowed :
      (write : Write) → IsStored host base_dir write → IsAllowed host base_dir write
  IsStored-IsAllowed write (root, path, inside, copied) = (
    root,
    path,
    inside,
    λ whole.
        let (content, fine, same, verified) = copied whole in
        subst (IsVerified host base_dir write.entry) (sym (same ∙ copies write.dest content fine))
          verified,
  )

  andthen-IsSound :
      {A B : Type 0} (o : LoadOutcome A) (next : LoadState → A → LoadOutcome B)
      → IsSound host base_dir o.0
      → ((s : LoadState) (a : A) → IsSound host base_dir s → IsSound host base_dir (next s a).0)
      → IsSound host base_dir (o andthen next).0
  andthen-IsSound (s, err fault) next h step = h
  andthen-IsSound (s, ok a) next h step = step s a h

  get_config-IsSound :
      (entry : ImportEntry) (s : LoadState)
      → IsSound host base_dir s
      → IsSound host base_dir (get_config host base_dir entry s).0
  get_config-IsSound entry s h =
      (get_config-IsGood host base_dir (IsSound host base_dir) (λ s src content k. k)
        (λ s write allowed k.
          All-append (IsAllowed host base_dir) s.writes (write ∷ []) k
            (IsStored-IsAllowed write allowed, tt))
        entry s h).0

  abbrev Keeps : Loading → Type 0
  Keeps load =
      (entry : ImportEntry) (s : LoadState)
      → IsSound host base_dir s
      → IsSound host base_dir (load entry s).0

  -- The merge that follows a load, and what follows that.
  merged-IsSound :
      (o : LoadOutcome ConfigDefinition) (base : ConfigDefinition) (path : Text)
      (next : LoadState → ConfigDefinition → LoadOutcome ConfigDefinition)
      → IsSound host base_dir o.0
      → ((s : LoadState) (c : ConfigDefinition)
          → IsSound host base_dir s
          → IsSound host base_dir (next s c).0)
      → IsSound host base_dir (o andthen (λ s imported. merged base imported path s) andthen next).0
  unfolding merged
  merged-IsSound o base path next h step =
      andthen-IsSound (o andthen (λ s imported. merged base imported path s)) next
        (andthen-IsSound o (λ s imported. merged base imported path s) h (λ s c k. k)) step

  module _ (load : Loading) (keeps : Keeps load) where
    load_files-IsSound :
        (files : List Text) (base : ConfigDefinition) (s : LoadState)
        → IsSound host base_dir s
        → IsSound host base_dir (load_files load files base s).0
    unfolding load_files
    load_files-IsSound [] base s h = h
    load_files-IsSound (file ∷ files) base s h = elim (Bool-cases (is_visited s file)) [
      | inl seen ↦ rw (seen, load_files) (load_files-IsSound files base s h)
      | inr new ↦
          rw (new, load_files)
            (merged-IsSound (load (entry_of file) s) base file
              (λ s base. load_files load files base s) (keeps (entry_of file) s h)
              (λ t c k. load_files-IsSound files c t k))
    ]

    load_import-IsSound :
        (dir : Text) (entry : ImportEntry) (s : LoadState)
        → IsSound host base_dir s
        → IsSound host base_dir (load_import load host dir entry s).0
    unfolding load_import load_dir
    load_import-IsSound dir entry s h = elim (Bool-cases (is_remote host dir entry)) [
      | inl remote ↦ rw (remote, load_import) (keeps entry s h)
      | inr local ↦ by_kind (host.is_dir s.writes (import_file host dir entry)) local refl
    ]
      where
        by_kind :
            (k : Option Bool)
            → is_remote host dir entry ≡ false
            → host.is_dir s.writes (import_file host dir entry) ≡ k
            → IsSound host base_dir (load_import load host dir entry s).0
        by_kind none local e = rw (local, e, load_import) h
        by_kind (some false) local e =
            rw (local, e, load_import)
              (keeps (record entry { src = import_file host dir entry }) s h)
        by_kind (some true) local e =
            elim (Option-cases
              (host.glob s.writes (host.join (import_file host dir entry) (codes "*.yaml")))) [
                | inl failed ↦ rw (local, e, failed, load_import, load_dir) h
                | inr (files, found) ↦
                    rw (local, e, found, load_import, load_dir)
                      (load_files-IsSound files no_config s h)
              ]

    parse_imports-IsSound :
        (dir : Text) (entries : List ImportEntry) (base : ConfigDefinition) (s : LoadState)
        → IsSound host base_dir s
        → IsSound host base_dir (parse_imports load host dir entries base s).0
    unfolding parse_imports
    parse_imports-IsSound dir [] base s h = h
    parse_imports-IsSound dir (entry ∷ entries) base s h =
        elim (Bool-cases (is_visited s (source host dir entry))) [
          | inl seen ↦ rw (seen, parse_imports) (parse_imports-IsSound dir entries base s h)
          | inr new ↦
              rw (new, parse_imports)
                (merged-IsSound (load_import load host dir entry s) base (source host dir entry)
                  (λ s base. parse_imports load host dir entries base s)
                  (load_import-IsSound dir entry s h)
                  (λ t c k. parse_imports-IsSound dir entries c t k))
        ]

  -- If a copy that does not fail is the whole text, and it holds of the files before, then every
  -- file that a load leaves, however it ends and through all its imports, has the path that its
  -- entry asks for, below the loader's directory or the working directory in which the loader was
  -- made, begins with the text of that directory, and has the digest of its entry, if the entry has
  -- one and the copy to the file did not fail.
  pub load-IsSound :
      (fuel : ℕ) (entry : ImportEntry) (s : LoadState)
      → IsSound host base_dir s
      → IsSound host base_dir (load host base_dir fuel entry s).0
  unfolding load
  load-IsSound zero entry s h = h
  load-IsSound (suc fuel) entry s h =
      let begun : LoadState = record s { imports = entry.src ∷ s.imports } in
      andthen-IsSound (get_config host base_dir entry begun)
        (λ s config.
          parse_imports (load host base_dir fuel) host (host.dir_of entry.src) config.imports config
            s)
        (get_config-IsSound entry begun h)
        (λ t c k.
          parse_imports-IsSound (load host base_dir fuel) (load-IsSound fuel)
            (host.dir_of entry.src) c.imports c t k)
