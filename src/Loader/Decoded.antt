-- ===== src/Loader/Decoded.antt =====
-- What a source gives was decoded from its content, or is the empty configuration of a file that
-- was imported.
use eirctl.Prelude.{
  ◌≡◌, refl, sym, ap, ◌∙◌, not, some, Text, lookup, Result, ok, err, Bool-cases, Option-cases, ◌⊎◌,
  inl, inr, ◌==◌,
}
use eirctl.Config.Definitions.{ImportEntry, ConfigDefinition, no_config}
use eirctl.Loader.{
  LoadState, LoadFault, cache_failed, Stream, Decoder, decoder, unmarshal, Host, LoadOutcome,
  ◌andthen◌, is_git,
}
use eirctl.Loader.Store.{is_file_import, write_imported_file}
use eirctl.Loader.Sources.{
  consume, store_in_cache, cache_get, cached, read_url, read_git, read_file, get_config,
}

module _ (host : Host) (base_dir : Text) where
  abbrev pub IsDecoded : ConfigDefinition → Type 0
  IsDecoded config =
      (config ≡ no_config)
      ⊎ ((kind : Decoder) × (content : Stream) × (host.decode kind content ≡ some config))

  abbrev Gives : LoadOutcome ConfigDefinition → Type 0
  Gives o = (config : ConfigDefinition) → o.1 ≡ ok config → IsDecoded config

  Gives-err : (s : LoadState) (fault : LoadFault) → Gives (s, err fault)
  Gives-err s fault config e = absurd (cc)

  consume-Gives :
      (dir : Text) (kind : Decoder) (entry : ImportEntry) (content : Stream) (s : LoadState)
      → Gives (consume host dir kind entry content s)
  unfolding consume
  consume-Gives dir kind entry content s = elim (Bool-cases (is_file_import entry)) [
    | inl file ↦ rw file (written (write_imported_file host dir entry content s))
    | inr config ↦ elim (Option-cases (host.decode kind content)) [
      | inl broken ↦ rw (config, broken) (λ c e. absurd (cc))
      | inr (d, decoded) ↦
          rw (config, decoded) (λ c e. inr (kind, content, decoded ∙ ap some (same_of_ok e)))
    ]
  ]
    where
      same_of_ok :
          {a b : ConfigDefinition}
          → ◌≡◌ {A = Result LoadFault ConfigDefinition} (ok a) (ok b)
          → a ≡ b
      same_of_ok q = cc

      written : (o : LoadOutcome (Unit {0})) → Gives (o andthen λ t done. (t, ok no_config))
      written (t, err fault) c e = absurd (cc)
      written (t, ok done) c e = inl (sym (same_of_ok e))

  read_url-Gives : (entry : ImportEntry) (s : LoadState) → Gives (read_url host base_dir entry s)
  unfolding read_url
  read_url-Gives entry s = elim (Option-cases (host.http_get entry.src)) [
    | inl failed ↦ rw (failed, read_url) (λ c e. absurd (cc))
    | inr ((status, body), got) ↦ elim (Bool-cases (not (status == 200))) [
      | inl refused ↦ rw (got, refused, read_url) (λ c e. absurd (cc))
      | inr fine ↦
          rw (got, fine, read_url)
            (consume-Gives base_dir decoder entry (store_in_cache host entry.src body s).1
              (store_in_cache host entry.src body s).0)
    ]
  ]

  read_git-Gives : (entry : ImportEntry) (s : LoadState) → Gives (read_git host base_dir entry s)
  unfolding read_git
  read_git-Gives entry s = elim (Option-cases (host.git_file entry.src)) [
    | inl failed ↦ rw (failed, read_git) (λ c e. absurd (cc))
    | inr (body, got) ↦
        rw (got, read_git)
          (consume-Gives base_dir decoder entry (store_in_cache host entry.src body s).1
            (store_in_cache host entry.src body s).0)
  ]

  read_file-Gives : (entry : ImportEntry) (s : LoadState) → Gives (read_file host base_dir entry s)
  unfolding read_file
  read_file-Gives entry s = elim (Option-cases (host.open_file s.writes entry.src)) [
    | inl failed ↦ rw (failed, read_file) (λ c e. absurd (cc))
    | inr (body, got) ↦ rw (got, read_file) (consume-Gives base_dir decoder entry body s)
  ]

  cached-Gives :
      (entry : ImportEntry) (from : LoadState → LoadOutcome ConfigDefinition) (s : LoadState)
      → ((t : LoadState) → Gives (from t))
      → Gives (cached host entry from s)
  unfolding cached cache_get
  cached-Gives entry from s step =
      elim (Option-cases (lookup (host.cache_path entry.src) s.cache)) [
        | inl absent ↦ rw (absent, cached) (step s)
        | inr (written, there) ↦
            let content = host.read_cache (host.cache_path entry.src) written in
            elim (Bool-cases content.is_broken) [
              | inl broken ↦
                  used (s, err (cache_failed entry.src)) (Gives-err s (cache_failed entry.src))
                    (rw (there, broken, cache_get) refl)
              | inr read ↦
                  used (consume host host.work_dir unmarshal entry content s)
                    (consume-Gives host.work_dir unmarshal entry content s)
                    (rw (there, read, cache_get) refl)
            ]
      ]
    where
      used :
          (o : LoadOutcome ConfigDefinition)
          → Gives o
          → cache_get host entry s ≡ some o
          → Gives (cached host entry from s)
      used (t, err fault) k e = rw (e, cached) (step t)
      used (t, ok config) k e = rw (e, cached) k

  pub get_config-Gives :
      (entry : ImportEntry) (s t : LoadState) (config : ConfigDefinition)
      → get_config host base_dir entry s ≡ (t, ok config)
      → IsDecoded config
  unfolding get_config
  get_config-Gives entry s t config e = by_source config (ap (λ o. o.1) e)
    where
      by_source : Gives (get_config host base_dir entry s)
      by_source = elim (Bool-cases (host.is_url entry.src)) [
        | inl url ↦
            rw (url, get_config)
              (cached-Gives entry (read_url host base_dir entry) s (read_url-Gives entry))
        | inr other ↦ elim (Bool-cases (is_git entry.src)) [
          | inl git ↦
              rw (other, git, get_config)
                (cached-Gives entry (read_git host base_dir entry) s (read_git-Gives entry))
          | inr file ↦ elim (Bool-cases (host.file_exists s.writes entry.src)) [
            | inl there ↦ rw (other, file, there, get_config) (read_file-Gives entry s)
            | inr absent ↦ rw (other, file, absent, get_config) (λ c q. absurd (cc))
          ]
        ]
      ]
