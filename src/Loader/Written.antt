-- ===== src/Loader/Written.antt =====
-- What the sources of a configuration do to the disk: whatever holds of it, and is kept when the
-- cache changes and when an allowed file is written, holds afterwards.
use eirctl.Prelude.{
  ◌≡◌, ◌≢◌, insert, codes, refl, ◌∙◌, true, not, [], ◌∷◌, ◌++◌, Option, none, some, Text, Result,
  ok, err, arith, Bool, false, ◌||◌, if◌then◌else◌, Bool-cases, Option-cases, ◌⊎◌, inl, inr,
  has_prefix, text_eq, text_eq_iff, lookup, ◌==◌,
}
use eirctl.Config.Definitions.{ImportEntry, ConfigDefinition, no_config}
use eirctl.Strings.{is_empty}
use eirctl.Loader.{
  hash_format, hash_algorithm, out_of_fuel, copy_failed, cache_failed, Stream, Decoder, decoder,
  unmarshal, Write, LoadState, LoadFault, Host, LoadOutcome, ◌andthen◌, is_git,
}
use eirctl.Loader.Store.{
  split_colon, has_hash, verify_hash, clean_dest, store_imported_file, write_imported_file,
  is_file_import,
}
use eirctl.Loader.Sources.{
  consume, store_in_cache, cache_get, cached, read_url, read_git, read_file, get_config,
}

has_hash-ne-out_of_fuel : (entry : ImportEntry) → has_hash entry ≢ err out_of_fuel
unfolding has_hash
has_hash-ne-out_of_fuel entry e = elim (Bool-cases (is_empty entry.hash)) [
  | inl no_hash ↦ clash_ok (rw (no_hash, has_hash) at e)
  | inr given ↦ elim (Option-cases (split_colon entry.hash)) [
    | inl whole ↦ clash_err (rw (given, whole, has_hash) at e)
    | inr ((typ, val), parts) ↦ elim (Bool-cases (text_eq typ (codes "sha256"))) [
      | inl known ↦ clash_ok (rw (given, parts, known, has_hash) at e)
      | inr other ↦ clash_err' (rw (given, parts, other, has_hash) at e)
    ]
  ]
]
  where
    clash_ok : {x : Option Text} → ok x ≡ err out_of_fuel → ⊥
    clash_ok q = cc

    clash_err :
        {t : Text}
        → ◌≡◌ {A = Result LoadFault (Option Text)} (err (hash_format t)) (err out_of_fuel)
        → ⊥
    clash_err q = cc

    clash_err' :
        {t : Text}
        → ◌≡◌ {A = Result LoadFault (Option Text)} (err (hash_algorithm t)) (err out_of_fuel)
        → ⊥
    clash_err' q = cc

module _ (host : Host) (base_dir : Text) where
  -- The content has the digest that the entry asks for, if it asks for one.
  abbrev pub IsVerified : ImportEntry → Text → Type 0
  IsVerified entry content =
      (has_hash entry ≡ ok none)
      ⊎ ((digest : Text) × (has_hash entry ≡ ok (some digest)) × (host.digest content ≡ digest))

  -- The directories below which files are written.
  abbrev pub IsRoot : Text → Type 0
  IsRoot dir = (dir ≡ base_dir) ⊎ (dir ≡ host.work_dir)

  -- The file is at the path of its entry, below the root, and if it is whole, it was copied from a
  -- content with the entry's digest.
  abbrev pub IsStored : Write → Type 0
  IsStored write =
      IsRoot write.base_dir
      × (write.dest ≡ clean_dest host write.base_dir write.entry.dest)
      × (has_prefix write.dest (host.clean write.base_dir) ≡ true)
      × (write.is_whole ≡ true
          → (content : Stream) × ((host.copy write.dest content).is_failed ≡ false)
            × (write.content ≡ (host.copy write.dest content).written)
            × IsVerified write.entry content.text)

  -- `keeps_cache` and `keeps_write` say that the property of the disk is kept.
  module _ (I : LoadState → Type 0)
      (keeps_cache : (s : LoadState) (src content : Text)
        → I s
        → I (record s { cache = insert src content s.cache }))
      (keeps_write : (s : LoadState) (write : Write)
        → IsStored write
        → I s
        → I (record s { writes = s.writes ++ write ∷ [] })) where
    -- The property holds, and if there is an error, the fuel is not its cause.
    abbrev pub IsGood : {A : Type 0} → LoadOutcome A → Type 0
    IsGood o = I o.0 × (o.1 ≢ err out_of_fuel)

    pub andthen-IsGood :
        {A B : Type 0} (o : LoadOutcome A) (next : LoadState → A → LoadOutcome B)
        → IsGood o
        → ((s : LoadState) (a : A) → o ≡ (s, ok a) → I s → IsGood (next s a))
        → IsGood (o andthen next)
    andthen-IsGood (s, err fault) next h step = (h.0, λ e. h.1 (cc))
    andthen-IsGood (s, ok a) next h step = step s a refl h.0

    store_imported_file-IsGood :
        (dir : Text) (entry : ImportEntry) (content : Stream) (s : LoadState)
        → IsRoot dir
        → IsVerified entry content.text
        → I s
        → IsGood (store_imported_file host dir entry content s)
    unfolding store_imported_file
    store_imported_file-IsGood dir entry content s root v h =
        let dest = clean_dest host dir entry.dest in
        elim (Bool-cases (has_prefix dest (host.clean dir))) [
          | inr outside ↦ rw outside (h, λ e. absurd (cc))
          | inl inside ↦ elim (Bool-cases (host.can_make_dir (host.dir_of dest))) [
            | inr refused ↦ rw (inside, refused) (h, λ e. absurd (cc))
            | inl made ↦ elim (Bool-cases (host.can_create dest)) [
              | inr refused ↦ rw (inside, made, refused) (h, λ e. absurd (cc))
              | inl created ↦
                  rw (inside, made, created)
                    (
                      keeps_write s (write dest)
                          (root, refl, inside, λ whole. (content, unfailed whole, refl, v)) h,
                      ended (host.copy dest content).is_failed (copy_failed dest) (λ e. cc),
                    )
            ]
          ]
        ]
      where
        write : Text → Write
        write dest = record {
          base_dir = dir;
          entry = entry;
          dest = dest;
          content = (host.copy dest content).written;
          is_whole = not (host.copy dest content).is_failed;
        }

        unfailed : {b : Bool} → not b ≡ true → b ≡ false
        unfailed e = ground arith

        ended :
            (b : Bool) (f : LoadFault)
            → f ≢ out_of_fuel
            → ◌≢◌ {A = Result LoadFault (Unit {0})} (if b then err f else ok tt) (err out_of_fuel)
        ended true f ne e = ne (cc)
        ended false f ne e = cc

    write_imported_file-IsGood :
        (dir : Text) (entry : ImportEntry) (content : Stream) (s : LoadState)
        → IsRoot dir
        → I s
        → IsGood (write_imported_file host dir entry content s)
    unfolding write_imported_file verify_hash
    write_imported_file-IsGood dir entry content s root h = by_hash (has_hash entry) refl
      where
        by_hash :
            (r : Result LoadFault (Option Text))
            → has_hash entry ≡ r
            → IsGood (write_imported_file host dir entry content s)
        by_hash (err fault) e =
            rw (e, write_imported_file) (h, λ f. has_hash-ne-out_of_fuel entry (e ∙ other_result f))
          where
            other_result :
                {x : LoadFault}
                → ◌≡◌ {A = Result LoadFault (Unit {0})} (err x) (err out_of_fuel)
                → ◌≡◌ {A = Result LoadFault (Option Text)} (err x) (err out_of_fuel)
            other_result q = cc
        by_hash (ok none) e =
            rw (e, write_imported_file)
              (store_imported_file-IsGood dir entry content s root (inl e) h)
        by_hash (ok (some expected)) e = elim (Bool-cases content.is_broken) [
          | inl broken ↦ rw (e, broken, write_imported_file) (h, λ f. absurd (cc))
          | inr read ↦ elim (Bool-cases (text_eq (host.digest content.text) expected)) [
            | inr other ↦
                rw (e, read, other, write_imported_file, verify_hash) (h, λ f. absurd (cc))
            | inl same ↦
                rw (e, read, same, write_imported_file, verify_hash)
                  (store_imported_file-IsGood dir entry content s root
                    (inr (expected, e, (text_eq_iff (host.digest content.text) expected).0 same)) h)
          ]
        ]

    consume-IsGood :
        (dir : Text) (kind : Decoder) (entry : ImportEntry) (content : Stream) (s : LoadState)
        → IsRoot dir
        → I s
        → IsGood (consume host dir kind entry content s)
    unfolding consume
    consume-IsGood dir kind entry content s root h = elim (Bool-cases (is_file_import entry)) [
      | inl file ↦ rw file (
          andthen-IsGood (write_imported_file host dir entry content s)
            (λ s written. (s, ok no_config)) (write_imported_file-IsGood dir entry content s root h)
            (λ t a e k. (k, λ f. absurd (cc))))
      | inr config ↦ elim (Option-cases (host.decode kind content)) [
        | inl broken ↦ rw (config, broken) (h, λ f. absurd (cc))
        | inr (c, decoded) ↦ rw (config, decoded) (h, λ f. absurd (cc))
      ]
    ]

    -- The content of a source is cached and consumed.
    stored-IsGood :
        (entry : ImportEntry) (body : Stream) (s : LoadState)
        → I s
        → IsGood (
            consume host base_dir decoder entry
              (store_in_cache host entry.src body s).1
              (store_in_cache host entry.src body s).0)
    unfolding store_in_cache
    stored-IsGood entry body s h =
        let path = host.cache_path entry.src in
        elim (Bool-cases
          (not (host.can_make_dir (host.dir_of path)) || not (host.can_create path))) [
            | inr can ↦
                let copied = host.copy path body in
                rw (can, store_in_cache)
                  (consume-IsGood base_dir decoder entry
                    (record { text = copied.taken; is_broken = false })
                    (record s { cache = insert path copied.written s.cache }) (inl refl)
                    (keeps_cache s path copied.written h))
            | inl cannot ↦
                rw (cannot, store_in_cache)
                  (consume-IsGood base_dir decoder entry (record { text = []; is_broken = false }) s
                    (inl refl) h)
          ]

    read_url-IsGood :
        (entry : ImportEntry) (s : LoadState) → I s → IsGood (read_url host base_dir entry s)
    unfolding read_url
    read_url-IsGood entry s h = elim (Option-cases (host.http_get entry.src)) [
      | inl failed ↦ rw (failed, read_url) (h, λ f. absurd (cc))
      | inr ((status, body), got) ↦ elim (Bool-cases (not (status == 200))) [
        | inl refused ↦ rw (got, refused, read_url) (h, λ f. absurd (cc))
        | inr fine ↦ rw (got, fine, read_url) (stored-IsGood entry body s h)
      ]
    ]

    read_git-IsGood :
        (entry : ImportEntry) (s : LoadState) → I s → IsGood (read_git host base_dir entry s)
    unfolding read_git
    read_git-IsGood entry s h = elim (Option-cases (host.git_file entry.src)) [
      | inl failed ↦ rw (failed, read_git) (h, λ f. absurd (cc))
      | inr (body, got) ↦ rw (got, read_git) (stored-IsGood entry body s h)
    ]

    read_file-IsGood :
        (entry : ImportEntry) (s : LoadState) → I s → IsGood (read_file host base_dir entry s)
    unfolding read_file
    read_file-IsGood entry s h = elim (Option-cases (host.open_file s.writes entry.src)) [
      | inl failed ↦ rw (failed, read_file) (h, λ f. absurd (cc))
      | inr (body, got) ↦
          rw (got, read_file) (consume-IsGood base_dir decoder entry body s (inl refl) h)
    ]

    cached-IsGood :
        (entry : ImportEntry) (from : LoadState → LoadOutcome ConfigDefinition) (s : LoadState)
        → ((t : LoadState) → I t → IsGood (from t))
        → I s
        → IsGood (cached host entry from s)
    unfolding cached cache_get
    cached-IsGood entry from s step h =
        elim (Option-cases (lookup (host.cache_path entry.src) s.cache)) [
          | inl absent ↦ rw (absent, cached) (step s h)
          | inr (written, there) ↦
              let content = host.read_cache (host.cache_path entry.src) written in
              elim (Bool-cases content.is_broken) [
                | inl broken ↦
                    used (s, err (cache_failed entry.src)) (h, λ e. absurd (cc))
                      (rw (there, broken, cache_get) refl)
                | inr read ↦
                    used (consume host host.work_dir unmarshal entry content s)
                      (consume-IsGood host.work_dir unmarshal entry content s (inr refl) h)
                      (rw (there, read, cache_get) refl)
              ]
        ]
      where
        used :
            (o : LoadOutcome ConfigDefinition)
            → IsGood o
            → cache_get host entry s ≡ some o
            → IsGood (cached host entry from s)
        used (t, err fault) k e = rw (e, cached) (step t k.0)
        used (t, ok config) k e = rw (e, cached) k

    pub get_config-IsGood :
        (entry : ImportEntry) (s : LoadState) → I s → IsGood (get_config host base_dir entry s)
    unfolding get_config
    get_config-IsGood entry s h = elim (Bool-cases (host.is_url entry.src)) [
      | inl url ↦
          rw url (cached-IsGood entry (read_url host base_dir entry) s (read_url-IsGood entry) h)
      | inr other ↦ elim (Bool-cases (is_git entry.src)) [
        | inl git ↦
            rw (other, git)
              (cached-IsGood entry (read_git host base_dir entry) s (read_git-IsGood entry) h)
        | inr file ↦ elim (Bool-cases (host.file_exists s.writes entry.src)) [
          | inl there ↦ rw (other, file, there) (read_file-IsGood entry s h)
          | inr absent ↦ rw (other, file, absent) (h, λ f. absurd (cc))
        ]
      ]
    ]
