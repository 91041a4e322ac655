-- ===== src/EnvLines/Tests.antt =====
-- The lines of a small environment.
use eirctl.Prelude.{◌≡◌, refl, [], ◌∷◌, Text, codes, Map, lookup, insert, text_eq, IsMap, arith}
use eirctl.EnvLines.{prepend, split, join, convert_env, store_parts, store_lines, convert_from_env}
use eirctl.EnvLines.RoundTrip.{IsEnv, lookup-convert_from_env-convert_env}

-- The value of a line may hold separators, and a line without one has an empty value.
convert_from_env-lines :
    convert_from_env (codes "A=b=c" ∷ codes "D" ∷ [])
    ≡ (codes "A", codes "b=c") ∷ (codes "D", []) ∷ []
unfolding convert_from_env store_lines store_parts split prepend join insert text_eq
convert_from_env-lines = refl

abbrev env : Map Text
env = (codes "MODE", codes "a=b") ∷ (codes "HOME", codes "/root") ∷ []

env-IsMap : IsMap env
env-IsMap = ground arith

env-IsEnv : IsEnv env
env-IsEnv = ground arith

lookup-convert_from_env_example :
    lookup (codes "MODE") (convert_from_env (convert_env env)) ≡ lookup (codes "MODE") env
lookup-convert_from_env_example =
    lookup-convert_from_env-convert_env env (codes "MODE") env-IsMap env-IsEnv
