-- ===== src/Loader/Default.antt =====
-- `ResolveDefaultConfigFile`: the search for a configuration from a directory upwards.
use eirctl.Prelude.{
  ◌≡◌, ◌≢◌, refl, subst, ◌↔◌, ◌⊎◌, ⊎_elim, inl, inr, ℕ, zero, suc, ◌<◌, true, false, List, [], ◌∷◌,
  Option, none, some, Text, codes, text_eq, text_eq_iff, length, has_prefix, Result, ok, err,
  if◌then◌else◌, Bool-cases, Option-cases, arith,
}
use eirctl.Loader.{Host, Write, LoadFault, not_found, out_of_fuel}

-- `DefaultFileNames`
abbrev pub default_file_names : List Text
default_file_names = codes "eirctl.yaml" ∷ codes "tasks.yaml" ∷ []

module _ (host : Host) (writes : List Write) where
  -- The first of the names that is there.
  unfoldable pub default_file : Text → List Text → Option Text
  default_file dir [] = none
  default_file dir (name ∷ names) =
      let file = host.join dir name in
      if host.file_exists writes file then some file else default_file dir names

  -- The directory, which becomes the loader's, and the file; the root is not looked at.
  unfoldable pub resolve_default_config_file : ℕ → Text → Result LoadFault (Text × Text)
  resolve_default_config_file zero dir = err out_of_fuel
  resolve_default_config_file (suc fuel) dir = elim (text_eq dir (host.dir_of dir)) [
    | true ↦ err (not_found dir)
    | false ↦ elim (default_file dir default_file_names) [
      | some file ↦ ok (dir, file)
      | none ↦ resolve_default_config_file fuel (host.dir_of dir)
    ]
  ]

  -- The parent of an absolute path is absolute, and it is the same path or a shorter one.
  abbrev pub IsUpward : Type 0
  IsUpward =
      (d : Text)
      → has_prefix d (codes "/") ≡ true
      → (has_prefix (host.dir_of d) (codes "/") ≡ true)
        × ((d ≡ host.dir_of d) ⊎ (length (host.dir_of d) < length d))

  -- The file in the nearest directory that has one.
  pub data IsNearest : Text → Text → Text → Type 0 where
    here :
        (dir file : Text)
        → dir ≢ host.dir_of dir
        → default_file dir default_file_names ≡ some file
        → IsNearest dir dir file
    above :
        (dir found file : Text)
        → dir ≢ host.dir_of dir
        → default_file dir default_file_names ≡ none
        → IsNearest (host.dir_of dir) found file
        → IsNearest dir found file

  IsNearest-resolve :
      (fuel : ℕ) {dir found file : Text}
      → IsUpward
      → has_prefix dir (codes "/") ≡ true
      → length dir < fuel
      → IsNearest dir found file
      → resolve_default_config_file fuel dir ≡ ok (found, file)
  unfolding resolve_default_config_file
  IsNearest-resolve zero up rooted h n = absurd (omega arith)
  IsNearest-resolve (suc fuel) up rooted h (here dir file below there) =
      let other : text_eq dir (host.dir_of dir) ≡ false =
        ground (arith, text_eq_iff dir (host.dir_of dir)) in
      rw (other, there, resolve_default_config_file) refl
  IsNearest-resolve (suc fuel) up rooted h (above dir found file below absent n) =
      let other : text_eq dir (host.dir_of dir) ≡ false =
        ground (arith, text_eq_iff dir (host.dir_of dir)) in
      let shorter : length (host.dir_of dir) < length dir =
        ⊎_elim (λ e. absurd (below e)) (λ l. l) (up dir rooted).1 in
      rw (other, absent, resolve_default_config_file)
        (IsNearest-resolve fuel up (up dir rooted).0 (omega arith) n)

  resolve-IsNearest :
      (fuel : ℕ) (dir found file : Text)
      → resolve_default_config_file fuel dir ≡ ok (found, file)
      → IsNearest dir found file
  unfolding resolve_default_config_file
  resolve-IsNearest zero dir found file e = absurd (cc)
  resolve-IsNearest (suc fuel) dir found file e =
      elim (Bool-cases (text_eq dir (host.dir_of dir))) [
        | inl root ↦ absurd (refused (rw (root, resolve_default_config_file) at e))
        | inr below ↦
            let apart : dir ≢ host.dir_of dir = ground (arith, text_eq_iff dir (host.dir_of dir)) in
            elim (Option-cases (default_file dir default_file_names)) [
              | inl absent ↦ above dir found file apart absent (
                  resolve-IsNearest fuel (host.dir_of dir) found file
                    (rw (below, absent, resolve_default_config_file) at e))
              | inr (f, there) ↦
                  let same = same_of_ok (rw (below, there, resolve_default_config_file) at e) in
                  subst (λ q. IsNearest dir q.0 q.1) same (here dir f apart there)
            ]
      ]
    where
      refused :
          {f : LoadFault} → ◌≡◌ {A = Result LoadFault (Text × Text)} (err f) (ok (found, file)) → ⊥
      refused q = cc

      same_of_ok :
          {a b : Text × Text} → ◌≡◌ {A = Result LoadFault (Text × Text)} (ok a) (ok b) → a ≡ b
      same_of_ok q = cc

  resolve-ends :
      (fuel : ℕ) (dir : Text)
      → IsUpward
      → has_prefix dir (codes "/") ≡ true
      → length dir < fuel
      → resolve_default_config_file fuel dir ≢ err out_of_fuel
  unfolding resolve_default_config_file
  resolve-ends zero dir up rooted h e = absurd (omega arith)
  resolve-ends (suc fuel) dir up rooted h e = elim (Bool-cases (text_eq dir (host.dir_of dir))) [
    | inl root ↦ lost (rw (root, resolve_default_config_file) at e)
    | inr below ↦
        let apart : dir ≢ host.dir_of dir = ground (arith, text_eq_iff dir (host.dir_of dir)) in
        let shorter : length (host.dir_of dir) < length dir =
          ⊎_elim (λ q. absurd (apart q)) (λ l. l) (up dir rooted).1 in
        elim (Option-cases (default_file dir default_file_names)) [
          | inl absent ↦
              resolve-ends fuel (host.dir_of dir) up (up dir rooted).0 (omega arith)
                (rw (below, absent, resolve_default_config_file) at e)
          | inr (f, there) ↦ found (rw (below, there, resolve_default_config_file) at e)
        ]
  ]
    where
      lost :
          {d : Text}
          → ◌≡◌ {A = Result LoadFault (Text × Text)} (err (not_found d)) (err out_of_fuel)
          → ⊥
      lost q = cc

      found :
          {p : Text × Text} → ◌≡◌ {A = Result LoadFault (Text × Text)} (ok p) (err out_of_fuel) → ⊥
      found q = cc

  -- If the parent of an absolute path is absolute and itself or shorter, the search from an
  -- absolute path ends, and it finds a file exactly when that is the one in the nearest directory below the root that has one.
  pub resolve_default_config_file-IsNearest :
      (dir : Text)
      → IsUpward
      → has_prefix dir (codes "/") ≡ true
      → (resolve_default_config_file (suc (length dir)) dir ≢ err out_of_fuel)
        × ((found file : Text)
            → (resolve_default_config_file (suc (length dir)) dir ≡ ok (found, file))
              ↔ IsNearest dir found file)
  resolve_default_config_file-IsNearest dir up rooted = (
    resolve-ends (suc (length dir)) dir up rooted (omega arith),
    λ found file. (
      resolve-IsNearest (suc (length dir)) dir found file,
      IsNearest-resolve (suc (length dir)) up rooted (omega arith),
    ),
  )
