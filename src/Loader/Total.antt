-- ===== src/Loader/Total.antt =====
-- The whole load ends, if the sources that it can come to are finitely many.
use eirctl.Prelude.{
  ◌≡◌, ◌≢◌, refl, ℕ, zero, suc, ◌≤◌, List, [], ◌∷◌, Text, In, elem, Map, ok, err, arith, length,
}
use eirctl.Search.Fuel.{unseen-unmarked}
use eirctl.Config.Definitions.{ImportEntry, ConfigDefinition}
use eirctl.Loader.{Write, LoadState, out_of_fuel, Host}
use eirctl.Loader.Sources.{get_config}
use eirctl.Loader.Imports.{is_visited, source, parse_imports, load}
use eirctl.Loader.Written.{get_config-IsGood}
use eirctl.Loader.Ends.{
  left, IsFine, left-visit, andthen-IsFine, Ends, IsGlobbed, parse_imports-IsFine,
}

-- What the sources import is among them.
abbrev pub IsClosed : Host → (base_dir : Text) → List Text → Type 0
IsClosed host base_dir all =
    (entry : ImportEntry) (s t : LoadState) (config : ConfigDefinition) (imported : ImportEntry)
    → In entry.src all
    → get_config host base_dir entry s ≡ (t, ok config)
    → In imported config.imports
    → In (source host (host.dir_of entry.src) imported) all

module _ (host : Host) (base_dir : Text) (all : List Text) (globbed : IsGlobbed host all)
    (closed : IsClosed host base_dir all) where
  load-Ends : (fuel : ℕ) → Ends host all (load host base_dir fuel) fuel
  unfolding load is_visited
  load-Ends zero entry s n i new h le =
      let fewer = left-visit all entry.src s i new in absurd (omega arith)
  load-Ends (suc fuel) entry s n i new h le =
      let begun : LoadState = record s { imports = entry.src ∷ s.imports } in
      let fewer = left-visit all entry.src s i new in
      let m = left all begun in
      let enough : m ≤ fuel = omega arith in
      let got : IsFine all m (get_config host base_dir entry begun) =
        get_config-IsGood host base_dir (λ t. left all t ≤ m) (λ t src content k. k)
          (λ t write allowed k. k) entry begun (omega arith) in
      let (le', fine) =
        andthen-IsFine all m (get_config host base_dir entry begun)
          (λ t config.
            parse_imports (load host base_dir fuel) host (host.dir_of entry.src) config.imports
              config t)
          got
          (λ t config e k.
            parse_imports-IsFine host all globbed (load host base_dir fuel) fuel m (load-Ends fuel)
              enough (host.dir_of entry.src) config.imports config t
              (λ imported j. closed entry begun t config imported i e j) k) in
      (omega arith, fine)

  -- If a finite list has the source of the load, and whatever its members import or have in their
  -- directories, then fuel of the length of the list is enough, whatever is in the cache.
  pub load-ends :
      (entry : ImportEntry) (cache : Map Text) (writes : List Write)
      → In entry.src all
      → (load host base_dir
          (length all)
          entry
          (record { imports = []; cache = cache; writes = writes })).1
        ≢ err out_of_fuel
  unfolding is_visited elem
  load-ends entry cache writes i =
      let start : LoadState = record { imports = []; cache = cache; writes = writes } in
      let none_seen : left all start ≡ length all = unseen-unmarked all in
      (load-Ends (length all) entry start (length all) i refl (omega arith) (omega arith)).1
