-- ===== src/Loader/Ends.antt =====
-- The recursion over imports ends: each call visits a source that had not been visited.
use eirctl.Prelude.{
  ◌≡◌, ◌≢◌, refl, ℕ, ◌≤◌, ◌<◌, Bool, true, false, List, [], ◌∷◌, Option, none, some, Text, codes,
  In, elem, Result, ok, err, Bool-cases, Option-cases, inl, inr, arith, text_eq_iff, Map, has,
  insert, ◌>>=◌,
}
use eirctl.Search.{mark}
use eirctl.Search.Fuel.{unseen, unseen-le, unseen-mark}
use eirctl.Config.Definitions.{ImportEntry, ConfigDefinition, no_config}
use eirctl.Loader.{Write, LoadState, LoadFault, out_of_fuel, clash, Host, LoadOutcome, ◌andthen◌}
use eirctl.Loader.Merge.{
  merge_kind, task_from, pipeline_from, context_from, merge_existing_with_imported,
}
use eirctl.Loader.Imports.{
  Loading, is_visited, merged, entry_of, load_files, load_dir, import_file, is_remote, source,
  load_import, parse_imports, load,
}

-- How many of the sources have not been visited.
abbrev pub left : List Text → LoadState → ℕ
left all s = unseen all (is_visited s)

-- An outcome that is not out of fuel, with no more unvisited sources than `n`.
abbrev pub IsFine : List Text → ℕ → {A : Type 0} → LoadOutcome A → Type 0
IsFine all n o = (left all o.0 ≤ n) × (o.1 ≢ err out_of_fuel)

pub andthen-IsFine :
    {A B : Type 0} (all : List Text) (n : ℕ) (o : LoadOutcome A)
    (next : LoadState → A → LoadOutcome B)
    → IsFine all n o
    → ((s : LoadState) (a : A) → o ≡ (s, ok a) → left all s ≤ n → IsFine all n (next s a))
    → IsFine all n (o andthen next)
andthen-IsFine all n (s, err fault) next h step = (h.0, λ e. h.1 (cc))
andthen-IsFine all n (s, ok a) next h step = step s a refl h.0

merge_kind-ne-out_of_fuel :
    {V : Type 0} (kind path : Text) (enrich : V → V) (imported base : Map V)
    → merge_kind kind path enrich imported base ≢ err out_of_fuel
unfolding merge_kind
merge_kind-ne-out_of_fuel {V} kind path enrich [] base e = cc
merge_kind-ne-out_of_fuel {V} kind path enrich ((name, v) ∷ imported) base e =
    elim (Bool-cases (has name base)) [
      | inl old ↦ other (rw (old, merge_kind) at e)
      | inr new ↦
          merge_kind-ne-out_of_fuel kind path enrich imported (insert name (enrich v) base)
            (rw (new, merge_kind) at e)
    ]
  where
    other : ◌≡◌ {A = Result LoadFault (Map V)} (err (clash kind path name)) (err out_of_fuel) → ⊥
    other q = cc

bind-ne-out_of_fuel :
    {A B : Type 0} (r : Result LoadFault A) (next : A → Result LoadFault B)
    → r ≢ err out_of_fuel
    → ((a : A) → next a ≢ err out_of_fuel)
    → (r >>= next) ≢ err out_of_fuel
bind-ne-out_of_fuel (err fault) next h step e = h (cc)
bind-ne-out_of_fuel (ok a) next h step e = step a e

merged-IsFine :
    (all : List Text) (n : ℕ) (base imported : ConfigDefinition) (path : Text) (s : LoadState)
    → left all s ≤ n
    → IsFine all n (merged base imported path s)
unfolding merged merge_existing_with_imported
merged-IsFine all n base imported path s h = (
  h,
  bind-ne-out_of_fuel (merge_kind (codes "task") path (task_from path) imported.tasks base.tasks) _
      (merge_kind-ne-out_of_fuel (codes "task") path (task_from path) imported.tasks base.tasks)
      (λ tasks.
        bind-ne-out_of_fuel
          (merge_kind (codes "pipeline") path (pipeline_from path) imported.pipelines
            base.pipelines)
          _
          (merge_kind-ne-out_of_fuel (codes "pipeline") path (pipeline_from path) imported.pipelines
            base.pipelines)
          (λ pipelines.
            bind-ne-out_of_fuel
              (merge_kind (codes "context") path (context_from path) imported.contexts
                base.contexts)
              _
              (merge_kind-ne-out_of_fuel (codes "context") path (context_from path)
                imported.contexts base.contexts)
              (λ contexts e. cc))),
)

-- Visiting a source leaves fewer.
pub left-visit :
    (all : List Text) (src : Text) (s : LoadState)
    → In src all
    → is_visited s src ≡ false
    → left all (record s { imports = src ∷ s.imports }) < left all s
unfolding is_visited elem
left-visit all src s i new =
    let less = unseen-mark src all (is_visited s) i new in
    let same =
      unseen-le all (mark src true (is_visited s))
        (is_visited (record s { imports = src ∷ s.imports }))
        (λ v old. ground (arith, text_eq_iff src v)) in
    omega arith

module _ (host : Host) (all : List Text) where
  -- A way to load for which `fuel` is enough.
  abbrev pub Ends : Loading → ℕ → Type 0
  Ends load fuel =
      (entry : ImportEntry) (s : LoadState) (n : ℕ)
      → In entry.src all
      → is_visited s entry.src ≡ false
      → left all s ≤ n
      → n ≤ fuel
      → IsFine all n (load entry s)

  -- A directory has no files but those among the sources.
  abbrev pub IsGlobbed : Type 0
  IsGlobbed =
      (writes : List Write) (pattern : Text) (files : List Text)
      → host.glob writes pattern ≡ some files
      → (file : Text) → In file files
      → In file all

  module _ (globbed : IsGlobbed) (load : Loading) (fuel n : ℕ) (ends : Ends load fuel)
      (le : n ≤ fuel) where
    -- A load, the merge of what it gives, and what follows.
    step-IsFine :
        (o : LoadOutcome ConfigDefinition) (base : ConfigDefinition) (path : Text)
        (next : LoadState → ConfigDefinition → LoadOutcome ConfigDefinition)
        → IsFine all n o
        → ((s : LoadState) (c : ConfigDefinition) → left all s ≤ n → IsFine all n (next s c))
        → IsFine all n (o andthen (λ s imported. merged base imported path s) andthen next)
    step-IsFine o base path next h step =
        andthen-IsFine all n (o andthen (λ s imported. merged base imported path s)) next
          (andthen-IsFine all n o (λ s imported. merged base imported path s) h
            (λ s c e k. merged-IsFine all n base c path s k))
          (λ s c e k. step s c k)

    load_files-IsFine :
        (files : List Text) (base : ConfigDefinition) (s : LoadState)
        → ((file : Text) → In file files → In file all)
        → left all s ≤ n
        → IsFine all n (load_files load files base s)
    unfolding load_files
    load_files-IsFine [] base s sub h = (h, λ e. absurd (cc))
    load_files-IsFine (file ∷ files) base s sub h = elim (Bool-cases (is_visited s file)) [
      | inl seen ↦ rw (seen, load_files) (load_files-IsFine files base s (λ g i. sub g (inr i)) h)
      | inr new ↦
          rw (new, load_files)
            (step-IsFine (load (entry_of file) s) base file (λ s base. load_files load files base s)
              (ends (entry_of file) s n (sub file (inl refl)) new h le)
              (λ t c k. load_files-IsFine files c t (λ g i. sub g (inr i)) k))
    ]

    load_import-IsFine :
        (dir : Text) (entry : ImportEntry) (s : LoadState)
        → In (source host dir entry) all
        → is_visited s (source host dir entry) ≡ false
        → left all s ≤ n
        → IsFine all n (load_import load host dir entry s)
    unfolding load_import load_dir source
    load_import-IsFine dir entry s i new h = elim (Bool-cases (is_remote host dir entry)) [
      | inl remote ↦
          rw (remote, load_import)
            (ends entry s n (rw (remote, source) at i) (rw (remote, source) at new) h le)
      | inr local ↦ by_kind (host.is_dir s.writes (import_file host dir entry)) local refl
    ]
      where
        by_kind :
            (k : Option Bool)
            → is_remote host dir entry ≡ false
            → host.is_dir s.writes (import_file host dir entry) ≡ k
            → IsFine all n (load_import load host dir entry s)
        by_kind none local e = rw (local, e, load_import) (h, λ f. absurd (cc))
        by_kind (some false) local e =
            rw (local, e, load_import)
              (ends (record entry { src = import_file host dir entry }) s n
                (rw (local, source) at i) (rw (local, source) at new) h le)
        by_kind (some true) local e =
            elim (Option-cases
              (host.glob s.writes (host.join (import_file host dir entry) (codes "*.yaml")))) [
                | inl failed ↦ rw (local, e, failed, load_import, load_dir) (h, λ f. absurd (cc))
                | inr (files, found) ↦
                    rw (local, e, found, load_import, load_dir)
                      (load_files-IsFine files no_config s
                        (globbed s.writes (host.join (import_file host dir entry) (codes "*.yaml"))
                          files found)
                        h)
              ]

    pub parse_imports-IsFine :
        (dir : Text) (entries : List ImportEntry) (base : ConfigDefinition) (s : LoadState)
        → ((entry : ImportEntry) → In entry entries → In (source host dir entry) all)
        → left all s ≤ n
        → IsFine all n (parse_imports load host dir entries base s)
    unfolding parse_imports
    parse_imports-IsFine dir [] base s sub h = (h, λ e. absurd (cc))
    parse_imports-IsFine dir (entry ∷ entries) base s sub h =
        elim (Bool-cases (is_visited s (source host dir entry))) [
          | inl seen ↦
              rw (seen, parse_imports)
                (parse_imports-IsFine dir entries base s (λ g i. sub g (inr i)) h)
          | inr new ↦
              rw (new, parse_imports)
                (step-IsFine (load_import load host dir entry s) base (source host dir entry)
                  (λ s base. parse_imports load host dir entries base s)
                  (load_import-IsFine dir entry s (sub entry (inl refl)) new h)
                  (λ t c k. parse_imports-IsFine dir entries c t (λ g i. sub g (inr i)) k))
        ]
