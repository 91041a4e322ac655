-- ===== src/Loader/Sources.antt =====
-- Where a configuration comes from: a URL or a repository, which the cache may hold, or a file.
use eirctl.Prelude.{
  not, ◌||◌, false, [], Option, none, some, Text, lookup, insert, ok, err, if◌then◌else◌, ◌==◌,
}
use eirctl.Config.Definitions.{ImportEntry, ConfigDefinition, no_config}
use eirctl.Loader.{
  LoadState, request_failed, not_found, git_failed, not_decoded, cache_failed, Stream, Decoder,
  decoder, unmarshal, Host, LoadOutcome, ◌andthen◌, is_git,
}
use eirctl.Loader.Store.{is_file_import, write_imported_file}

module _ (host : Host) where
  -- What is done with the content: an imported file is written below a directory, a configuration
  -- decoded.
  unfoldable pub consume :
      (base_dir : Text) → Decoder → ImportEntry → Stream → LoadState → LoadOutcome ConfigDefinition
  consume base_dir kind entry content s =
      if is_file_import entry
      then (write_imported_file host base_dir entry content s andthen λ s written.
          (s, ok no_config))
      else elim (host.decode kind content) [
        | none ↦ (s, err (not_decoded entry.src))
        | some config ↦ (s, ok config)
      ]

  -- `cache.Store` of what is read through a tee: the second part is what the tee has copied, which
  -- is what the copy took from the reader, and nothing if there was no copy.
  unfoldable pub store_in_cache : Text → Stream → LoadState → LoadState × Stream
  store_in_cache src content s =
      let path = host.cache_path src in
      if not (host.can_make_dir (host.dir_of path)) || not (host.can_create path)
      then (s, record { text = []; is_broken = false })
      else let copied = host.copy path content in
        (
          record s { cache = insert path copied.written s.cache },
          record { text = copied.taken; is_broken = false },
        )

  -- `cache.Get`. Its writer of imported files is the method of the loader as it was made, before it
  -- was returned by value, so that they are written below the working directory of that time.
  unfoldable pub cache_get : ImportEntry → LoadState → Option (LoadOutcome ConfigDefinition)
  cache_get entry s = elim (lookup (host.cache_path entry.src) s.cache) [
    | none ↦ none
    | some written ↦
        let content = host.read_cache (host.cache_path entry.src) written in
        if content.is_broken
        then some (s, err (cache_failed entry.src))
        else some (consume host.work_dir unmarshal entry content s)
  ]

  -- What is in the cache and can be used, or else what another source gives.
  unfoldable pub cached :
      ImportEntry
      → (LoadState → LoadOutcome ConfigDefinition)
      → LoadState
      → LoadOutcome ConfigDefinition
  cached entry source s = elim (cache_get entry s) [
    | none ↦ source s
    | some (t, err fault) ↦ source t
    | some (t, ok config) ↦ (t, ok config)
  ]

  unfoldable pub read_url :
      (base_dir : Text) → ImportEntry → LoadState → LoadOutcome ConfigDefinition
  read_url base_dir entry s = elim (host.http_get entry.src) [
    | none ↦ (s, err (request_failed entry.src))
    | some (status, body) ↦
        if not (status == 200)
        then (s, err (request_failed entry.src))
        else let stored = store_in_cache entry.src body s in
          consume base_dir decoder entry stored.1 stored.0
  ]

  -- The clone of a repository, and `GitSource.Config`.
  unfoldable pub read_git :
      (base_dir : Text) → ImportEntry → LoadState → LoadOutcome ConfigDefinition
  read_git base_dir entry s = elim (host.git_file entry.src) [
    | none ↦ (s, err (git_failed entry.src))
    | some body ↦
        let stored = store_in_cache entry.src body s in
        consume base_dir decoder entry stored.1 stored.0
  ]

  unfoldable pub read_file :
      (base_dir : Text) → ImportEntry → LoadState → LoadOutcome ConfigDefinition
  read_file base_dir entry s = elim (host.open_file s.writes entry.src) [
    | none ↦ (s, err (not_found entry.src))
    | some content ↦ consume base_dir decoder entry content s
  ]

  -- The functions of `getGetConfigFunc`, in their order.
  unfoldable pub get_config :
      (base_dir : Text) → ImportEntry → LoadState → LoadOutcome ConfigDefinition
  get_config base_dir entry s =
      if host.is_url entry.src
      then cached entry (read_url base_dir entry) s
      else if is_git entry.src
      then cached entry (read_git base_dir entry) s
      else if not (host.file_exists s.writes entry.src)
      then (s, err (not_found entry.src))
      else read_file base_dir entry s
