-- ===== src/EnvLines.antt =====
-- `ConvertEnv` and `ConvertFromEnv` of internal/utils/utils.go: an environment as lines
-- `key=value`, and back.
pub mod RoundTrip
pub mod Tests
use eirctl.Prelude.{ℕ, ◌==◌, Bool, List, [], ◌∷◌, ◌++◌, Text, Map, insert, if◌then◌else◌}

-- A byte before the first part.
unfoldable pub prepend : ℕ → List Text → List Text
prepend c [] = (c ∷ []) ∷ []
prepend c (part ∷ parts) = (c ∷ part) ∷ parts

-- `strings.Split(s, sep)` for a separator of one byte: one part more than separators.
unfoldable pub split : ℕ → Text → List Text
split sep [] = [] ∷ []
split sep (c ∷ s) = let rest = split sep s in if c == sep then [] ∷ rest else prepend c rest

-- `strings.Join(parts, sep)`
unfoldable pub join : Text → List Text → Text
join sep [] = []
join sep (part ∷ []) = part
join sep (part ∷ next ∷ parts) = part ++ sep ++ join sep (next ∷ parts)

unfoldable pub env_line : Text → Text → Text
env_line k v = k ++ b'=' ∷ v

unfoldable pub convert_env : Map Text → List Text
convert_env [] = []
convert_env ((k, v) ∷ env) = env_line k v ∷ convert_env env

-- `envMap[v[0]] = strings.Join(v[1:], "=")`
unfoldable pub store_parts : List Text → Map Text → Map Text
store_parts [] env_map = env_map
store_parts (k ∷ vs) env_map = insert k (join (b'=' ∷ []) vs) env_map

unfoldable pub store_lines : List Text → Map Text → Map Text
store_lines [] env_map = env_map
store_lines (val ∷ env) env_map = store_lines env (store_parts (split b'=' val) env_map)

unfoldable pub convert_from_env : List Text → Map Text
convert_from_env env = store_lines env []
