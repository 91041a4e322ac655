-- ===== src/Variables/Merge.antt =====
-- What the operations of a container do to each key.
use eirctl.Prelude.{
  ◌≡◌, refl, [], Option, none, some, Text, Map, lookup, has, insert_all, IsMap, lookup-insert,
  lookup-insert_all, insert_all-IsMap, text_eq, if◌then◌else◌, arith, ◌||◌,
}
use eirctl.Variables.{
  Any, Variables, new_variables, from_vars_map, from_map, str_values, set, get, has_key, to_map,
  merge, with,
}

-- A container holds a key once.
abbrev pub IsContainer : Variables → Type 0
IsContainer vars = IsMap vars.m

-- What a key is bound to.
abbrev pub value : Variables → Text → Option Any
value vars key = lookup key vars.m

-- The right one if there is one, and the left one otherwise.
abbrev pub or_else : Option Any → Option Any → Option Any
or_else a b = elim b [ none ↦ a | some v ↦ some v ]

pub value-to_map :
    (vars : Variables) (key : Text) → IsContainer vars → lookup key (to_map vars) ≡ value vars key
unfolding to_map lookup
value-to_map vars key h = ground (arith, lookup-insert_all key vars.m [] h)

pub to_map-IsMap : (vars : Variables) → IsMap (to_map vars)
unfolding to_map
to_map-IsMap vars = insert_all-IsMap vars.m [] tt

-- Merging gives every key the value of the source, and keeps the receiver's where the source has
-- none.
pub value-merge :
    (vars src : Variables) (key : Text)
    → IsContainer vars
    → IsContainer src
    → value (merge (some vars) src) key ≡ or_else (value vars key) (value src key)
unfolding merge lookup
value-merge vars src key hv hs = ground (
  arith,
  lookup-insert_all key (to_map src) (insert_all (to_map vars) []) (to_map-IsMap src),
  lookup-insert_all key (to_map vars) [] (to_map-IsMap vars),
  value-to_map vars key hv,
  value-to_map src key hs,
)

pub merge-IsContainer : (vars : Option Variables) (src : Variables) → IsContainer (merge vars src)
unfolding merge
merge-IsContainer none src = insert_all-IsMap (to_map src) [] tt
merge-IsContainer (some vars) src =
    insert_all-IsMap (to_map src) (insert_all (to_map vars) [])
      (insert_all-IsMap (to_map vars) [] tt)

pub from_map-IsContainer : (values : Map Text) → IsContainer (from_map values)
unfolding from_map
from_map-IsContainer values = insert_all-IsMap (str_values values) [] tt

pub from_vars_map-IsContainer : (values : Map Any) → IsContainer (from_vars_map values)
unfolding from_vars_map
from_vars_map-IsContainer values = insert_all-IsMap values [] tt

or_else_assoc : (a b c : Option Any) → or_else (or_else a b) c ≡ or_else a (or_else b c)
or_else_assoc a b c = ground arith

-- Three containers may be merged from either end: every key has the value of the last container
-- that binds it. So the precedence of a chain of merges is the order in which they are written.
pub merge_assoc :
    (a b c : Variables) (key : Text)
    → IsContainer a
    → IsContainer b
    → IsContainer c
    → (value (merge (some (merge (some a) b)) c) key
        ≡ or_else (value a key) (or_else (value b key) (value c key)))
      × (value (merge (some a) (merge (some b) c)) key
          ≡ or_else (value a key) (or_else (value b key) (value c key)))
merge_assoc a b c key ha hb hc = ground (
  arith,
  value-merge (merge (some a) b) c key (merge-IsContainer (some a) b) hc,
  value-merge a b key ha hb,
  value-merge a (merge (some b) c) key ha (merge-IsContainer (some b) c),
  value-merge b c key hb hc,
)

new_variables-IsContainer : IsContainer new_variables
unfolding new_variables
new_variables-IsContainer = tt

value-new_variables : (j : Text) → value new_variables j ≡ none
unfolding new_variables lookup
value-new_variables j = refl

-- `With` binds the key it is given, and every other key keeps its value.
pub get-with :
    (vars : Variables) (key j : Text) (v : Any)
    → IsContainer vars
    → (get (with vars key v) j ≡ (if text_eq key j then v else get vars j))
      × (has_key (with vars key v) j ≡ (text_eq key j || has_key vars j))
unfolding get with set has_key has
get-with vars key j v h = ground (
  arith,
  lookup-insert key j v (merge (some new_variables) vars).m,
  value-merge new_variables vars j new_variables-IsContainer h,
  value-new_variables j,
)
