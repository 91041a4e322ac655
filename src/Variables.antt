-- ===== src/Variables.antt =====
-- variables/variables.go: a container of key-value pairs behind a `sync.Map`. A value is `any`;
-- the configuration puts the values of YAML there.
pub mod Merge
pub mod Tests
use eirctl.Prelude.{
  ℕ, Bool, List, [], ◌∷◌, Option, none, some, Text, Map, lookup, insert, has, insert_all, map,
}

-- The values of YAML.
mutual
  pub data Any : Type 0 where
    null : Any
    bool : Bool → Any
    num : ℕ → Any
    str : Text → Any
    arr : Items → Any
    obj : Fields → Any

  pub data Items : Type 0 where
    nil : Items
    cons : Any → Items → Items

  pub data Fields : Type 0 where
    end : Fields
    field : Text → Any → Fields → Fields

pub record Variables : Type 0 where
  pub m : Map Any

unfoldable pub new_variables : Variables
new_variables = record { m = [] }

-- `for k, v := range values { vars.m.Store(k, v) }`
unfoldable pub from_vars_map : Map Any → Variables
from_vars_map values = record { m = insert_all values [] }

unfoldable pub str_values : Map Text → Map Any
str_values [] = []
str_values ((k, v) ∷ values) = (k, str v) ∷ str_values values

unfoldable pub from_map : Map Text → Variables
from_map values = record { m = insert_all (str_values values) [] }

unfoldable pub set : Variables → Text → Any → Variables
set vars key value = record { m = insert key value vars.m }

-- A missing key reads as the empty text.
unfoldable pub get : Variables → Text → Any
get vars key = elim (lookup key vars.m) [ none ↦ str [] | some v ↦ v ]

unfoldable pub has_key : Variables → Text → Bool
has_key vars name = has name vars.m

-- The copy that `Map` makes, entry by entry.
unfoldable pub to_map : Variables → Map Any
to_map vars = insert_all vars.m []

-- The receiver may be a nil pointer, the argument may not: `Merge` ranges over it.
unfoldable pub merge : Option Variables → Variables → Variables
merge none src = record { m = insert_all (to_map src) [] }
merge (some vars) src = record { m = insert_all (to_map src) (insert_all (to_map vars) []) }

unfoldable pub with : Variables → Text → Any → Variables
with vars key value = set (merge (some new_variables) vars) key value
