-- ===== src/Policy/Permitted/Table.antt =====
-- The table of expected permissions is one of maps that name values only.
use eirctl.Prelude.{
  ◌≡◌, refl, subst, inl, inr, Bool, true, not, ◌&&◌, [], ◌∷◌, some, Option-cases, Bool-cases, Text,
  Map, lookup, keys, IsMap, elem, elem_iff, text_eq, arith,
}
use eirctl.Strings.{is_empty}
use eirctl.Policy.{Permissions, Workflow}
use eirctl.Policy.Permitted.{read_contents, allowed, expected_job_permissions}
use eirctl.Policy.Permitted.Exact.{IsGranting}

unfoldable well_formed : Permissions → Bool
well_formed [] = true
well_formed ((k, v) ∷ m) = not (elem k (keys m)) && not (is_empty v) && well_formed m

well_formed_lem : (m : Permissions) → well_formed m ≡ true → IsMap m × IsGranting m
unfolding well_formed is_empty
well_formed_lem [] e = (tt, tt)
well_formed_lem ((k, []) ∷ m) e = ground arith
well_formed_lem ((k, c ∷ v) ∷ m) e =
    let (d, g) = well_formed_lem m (ground arith) in
    ((λ i. ground (arith, elem_iff k (keys m)), d), (λ h. absurd (cc), g))

unfoldable all_values : {V : Type 0} → (V → Bool) → Map V → Bool
all_values p [] = true
all_values p ((k, v) ∷ m) = p v && all_values p m

all_values-lookup :
    {V : Type 0} (p : V → Bool) (m : Map V) (k : Text) (v : V)
    → all_values p m ≡ true
    → lookup k m ≡ some v
    → p v ≡ true
unfolding all_values lookup
all_values-lookup p [] k v a e = absurd (cc)
all_values-lookup p ((j, u) ∷ m) k v a e = elim (Bool-cases (text_eq j k)) [
  | inl here ↦
      let same : u ≡ v = same_of_some (rw (here, lookup) at e) in
      subst (λ w. p w ≡ true) same (ground arith)
  | inr there ↦ all_values-lookup p m k v (ground arith) (rw (there, lookup) at e)
]
  where
    same_of_some : {V : Type 0} {a b : V} → some a ≡ some b → a ≡ b
    same_of_some e = cc

all_values-allowed : all_values (all_values well_formed) allowed ≡ true
unfolding all_values well_formed elem text_eq is_empty
all_values-allowed = refl

by_default : well_formed read_contents ≡ true
unfolding well_formed elem is_empty
by_default = refl

pub expected_job_permissions-IsMap :
    (w : Workflow) (id : Text)
    → IsMap (expected_job_permissions w id) × IsGranting (expected_job_permissions w id)
unfolding expected_job_permissions
expected_job_permissions-IsMap w id =
    well_formed_lem (expected_job_permissions w id) (expected w id)
  where
    expected : (w : Workflow) (id : Text) → well_formed (expected_job_permissions w id) ≡ true
    expected w id = elim (Option-cases (lookup w.path allowed)) [
      | inl lost ↦ rw (lost, expected_job_permissions) by_default
      | inr (jobs, found) ↦ elim (Option-cases (lookup id jobs)) [
        | inl lost ↦ rw (found, lost, expected_job_permissions) by_default
        | inr (permissions, known) ↦
            rw (found, known, expected_job_permissions)
              (all_values-lookup well_formed jobs id permissions
                (all_values-lookup (all_values well_formed) allowed w.path jobs all_values-allowed
                  found)
                known)
      ]
    ]
