-- ===== src/Prelude/Maps.antt =====
-- A Go map with text keys, as an association list. Where the source ranges over a map, the
-- order of the entries is the order of that range, so a theorem about every list is one about
-- every order that the runtime may choose.
use mathlib.Core.Path.{◌≡◌, refl}
use mathlib.Core.Logic.{◌↔◌, ◌⊎◌}
use mathlib.Core.Bool.{Bool, true, false}
use mathlib.Core.Option.{Option, none, some}
use mathlib.Core.List.{List, [], ◌∷◌, ◌++◌}
use native.Mathlib.Omega.{arith}
use eirctl.Prelude.Tests.{if◌then◌else◌}
use eirctl.Prelude.Lists.{In, Distinct}
use eirctl.Prelude.Texts.{Text, text_eq, text_eq_iff}

abbrev pub Map {ℓ} : Type ℓ → Type ℓ
Map V = List (Text × V)

module _ {ℓ} {V : Type ℓ} where
  unfoldable pub lookup : Text → Map V → Option V
  lookup k [] = none
  lookup k ((j, v) ∷ m) = if text_eq j k then some v else lookup k m

  unfoldable pub insert : Text → V → Map V → Map V
  insert k v [] = (k, v) ∷ []
  insert k v ((j, w) ∷ m) = if text_eq j k then (k, v) ∷ m else (j, w) ∷ insert k v m

  abbrev pub keys : Map V → List Text
  keys [] = []
  keys ((k, _) ∷ m) = k ∷ keys m

  pub lookup-insert :
      (k j : Text) (v : V) (m : Map V)
      → lookup j (insert k v m) ≡ (if text_eq k j then some v else lookup j m)
  unfolding lookup insert
  lookup-insert k j v [] = refl
  lookup-insert k j v ((i, w) ∷ m) =
      ground (arith, text_eq_iff k j, text_eq_iff i k, text_eq_iff i j, lookup-insert k j v m)

  pub In-keys-insert :
      (k j : Text) (v : V) (m : Map V) → In j (keys (insert k v m)) ↔ ((j ≡ k) ⊎ In j (keys m))
  unfolding insert
  In-keys-insert k j v [] = ground arith
  In-keys-insert k j v ((i, w) ∷ m) = ground (arith, text_eq_iff i k, In-keys-insert k j v m)

  pub keys-insert :
      (k : Text) (v : V) (m : Map V) → ¬ In k (keys m) → keys (insert k v m) ≡ keys m ++ k ∷ []
  unfolding insert
  keys-insert k v [] new = refl
  keys-insert k v ((i, w) ∷ m) new = ground (arith, text_eq_iff i k, keys-insert k v m)

  -- A map of Go holds a key once.
  abbrev pub IsMap : Map V → Type 0
  IsMap m = Distinct (keys m)

  pub insert-IsMap : (k : Text) (v : V) (m : Map V) → IsMap m → IsMap (insert k v m)
  unfolding insert
  insert-IsMap k v [] h = ground arith
  insert-IsMap k v ((i, w) ∷ m) h =
      ground (arith, text_eq_iff i k, In-keys-insert k i v m, insert-IsMap k v m h.1)

  pub lookup-eq-none_iff : (k : Text) (m : Map V) → (lookup k m ≡ none) ↔ (¬ In k (keys m))
  unfolding lookup
  lookup-eq-none_iff k [] = ground arith
  lookup-eq-none_iff k ((j, v) ∷ m) = ground (arith, text_eq_iff j k, lookup-eq-none_iff k m)

  -- `_, ok := m[k]`
  unfoldable pub has : Text → Map V → Bool
  unfolding lookup
  has k m = elim (lookup k m) [ none ↦ false | some _ ↦ true ]

  pub has_iff : (k : Text) (m : Map V) → (has k m ≡ true) ↔ In k (keys m)
  unfolding has lookup
  has_iff k [] = ground arith
  has_iff k ((j, v) ∷ m) = ground (arith, text_eq_iff j k, has_iff k m)

  -- `for k, v := range m { dst[k] = v }`
  unfoldable pub insert_all : Map V → Map V → Map V
  unfolding insert
  insert_all [] dst = dst
  insert_all ((k, v) ∷ m) dst = insert_all m (insert k v dst)

  pub insert_all-IsMap : (m dst : Map V) → IsMap dst → IsMap (insert_all m dst)
  unfolding insert_all
  insert_all-IsMap [] dst h = h
  insert_all-IsMap ((k, v) ∷ m) dst h = insert_all-IsMap m (insert k v dst) (insert-IsMap k v dst h)

  pub lookup-insert_all :
      (j : Text) (m dst : Map V)
      → IsMap m
      → lookup j (insert_all m dst) ≡ elim (lookup j m) [ none ↦ lookup j dst | some v ↦ some v ]
  unfolding insert_all lookup
  lookup-insert_all j [] dst h = refl
  lookup-insert_all j ((k, v) ∷ m) dst h = ground (
    arith,
    lookup-insert_all j m (insert k v dst) h.1,
    lookup-insert k j v dst,
    lookup-eq-none_iff k m,
    text_eq_iff k j,
  )

  -- A copy of a map reads as the map.
  pub lookup-copy : (j : Text) (m : Map V) → IsMap m → lookup j (insert_all m []) ≡ lookup j m
  unfolding lookup
  lookup-copy j m h = ground (arith, lookup-insert_all j m [] h)
