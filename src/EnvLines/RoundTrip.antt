-- ===== src/EnvLines/RoundTrip.antt =====
-- Lines that were made from an environment give it back.
use eirctl.Prelude.{
  ◌≡◌, refl, ap, ◌∙◌, ℕ, ◌==◌, arith, false, List, [], ◌∷◌, ◌++◌, Text, Map, lookup, insert,
  insert_all, lookup-copy, IsMap, In, All, inl, inr, Bool-cases,
}
use eirctl.EnvLines.{
  prepend, split, join, env_line, convert_env, store_parts, store_lines, convert_from_env,
}

-- Parts are never none.
split-cons : (sep : ℕ) (s : Text) → (p : Text) × (ps : List Text) × (split sep s ≡ p ∷ ps)
unfolding split prepend
split-cons sep [] = ([], [], refl)
split-cons sep (c ∷ s) =
    let (p, ps, e) = split-cons sep s in
    elim (Bool-cases (c == sep)) [
      | inl here ↦ ([], split sep s, rw here refl)
      | inr other ↦ (c ∷ p, ps, rw (other, e) refl)
    ]

join-prepend :
    (sep : Text) (c : ℕ) (p : Text) (ps : List Text)
    → join sep (prepend c (p ∷ ps)) ≡ c ∷ join sep (p ∷ ps)
unfolding join prepend
join-prepend sep c p [] = refl
join-prepend sep c p (q ∷ ps) = refl

-- Joining the parts of a text gives it back.
pub join-split : (sep : ℕ) (s : Text) → join (sep ∷ []) (split sep s) ≡ s
unfolding split join
join-split sep [] = refl
join-split sep (c ∷ s) =
    let (p, ps, e) = split-cons sep s in
    let again : join (sep ∷ []) (p ∷ ps) ≡ s = rw (← e) (join-split sep s) in
    elim (Bool-cases (c == sep)) [
      | inl here ↦ let same : c ≡ sep = ground arith in rw (here, e, same) (ap (λ t. sep ∷ t) again)
      | inr other ↦ rw (other, e) (join-prepend (sep ∷ []) c p ps ∙ ap (λ t. c ∷ t) again)
    ]

-- What stands before the first separator is the first part.
split-append : (sep : ℕ) (k v : Text) → ¬ In sep k → split sep (k ++ sep ∷ v) ≡ k ∷ split sep v
unfolding split prepend
split-append sep [] v free = ground arith
split-append sep (c ∷ k) v free =
    let again = split-append sep k v (λ m. free (inr m)) in
    let other : (c == sep) ≡ false = ground arith in rw (other, again) refl

-- One line of an environment stores its value under its key.
store_parts-env_line :
    (k v : Text) (env_map : Map Text)
    → ¬ In b'=' k
    → store_parts (split b'=' (env_line k v)) env_map ≡ insert k v env_map
unfolding env_line store_parts
store_parts-env_line k v env_map free = rw (split-append b'=' k v free, join-split b'=' v) refl

-- No name has a `=`.
abbrev pub IsEnv : Map Text → Type 0
IsEnv env = All (λ (k, _). ¬ In b'=' k) env

store_lines-convert_env :
    (env env_map : Map Text)
    → IsEnv env
    → store_lines (convert_env env) env_map ≡ insert_all env env_map
unfolding store_lines convert_env insert_all
store_lines-convert_env [] env_map h = refl
store_lines-convert_env ((k, v) ∷ env) env_map h =
    ap (store_lines (convert_env env)) (store_parts-env_line k v env_map h.0)
    ∙ store_lines-convert_env env (insert k v env_map) h.1

pub convert_from_env-convert_env :
    (env : Map Text) → IsEnv env → convert_from_env (convert_env env) ≡ insert_all env []
unfolding convert_from_env
convert_from_env-convert_env env h = store_lines-convert_env env [] h

-- An environment whose names have no `=` is what its lines are read as.
pub lookup-convert_from_env-convert_env :
    (env : Map Text) (k : Text)
    → IsMap env
    → IsEnv env
    → lookup k (convert_from_env (convert_env env)) ≡ lookup k env
lookup-convert_from_env-convert_env env k once h =
    ap (lookup k) (convert_from_env-convert_env env h) ∙ lookup-copy k env once
