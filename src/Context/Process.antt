-- ===== src/Context/Process.antt =====
-- Which variables reach the commands, and with what values.
use eirctl.Prelude.{[], ◌∷◌, Option, none, some, Text, Map, if◌then◌else◌}
use eirctl.Variables.{Any, str, Variables}
use eirctl.Envfile.{Envfile}
use eirctl.Context.Dropped.{is_dropped}

-- A value as the text that is passed on.
abbrev pub as_text : (Any → Text) → Option Any → Option Any
as_text show none = none
as_text show (some v) = some (str (show v))

module _ (show : Any → Text) (e : Envfile) where
  kept : Map Any → Map Text
  kept [] = []
  kept ((k, v) ∷ env) = let rest = kept env in if is_dropped e k then rest else (k, show v) ∷ rest

opt_str : Option Text → Option Any
opt_str none = none
opt_str (some t) = some (str t)
