-- ===== src/Task/Tests.antt =====
-- The inputs that a task requires, on an example.
use eirctl.Prelude.{
  ◌≡◌, refl, false, List, [], ◌∷◌, Text, codes, ok, err, lookup, has, text_eq, In, ◌↔◌,
}
use eirctl.Variables.{Variables, str, has_key}
use eirctl.Task.{
  RequiredInput, not_found, required_outcome, check_required, env_missing, vars_missing,
}
use eirctl.Task.Required.{IsPresent, check_required_lem}

abbrev required : RequiredInput
required = record {
  vars = codes "Version" ∷ [];
  env = codes "TOKEN" ∷ codes "HOME" ∷ [];
  args = [];
}

abbrev env : Variables
env = record { m = (codes "HOME", str []) ∷ [] }

-- An empty value counts as present.
check_required-env : check_required required env env ≡ err (env_missing (codes "TOKEN" ∷ []))
unfolding check_required required_outcome not_found has_key has lookup text_eq
check_required-env = refl

check_required_lem_example :
    ((check_required required env env ≡ ok tt)
      ↔ (IsPresent env required.env × IsPresent env required.vars))
    × ((l : List Text)
        → check_required required env env ≡ err (env_missing l)
        → (v : Text) → In v l ↔ (In v required.env × (has_key env v ≡ false)))
    × ((l : List Text)
        → check_required required env env ≡ err (vars_missing l)
        → IsPresent env required.env
          × ((v : Text) → In v l ↔ (In v required.vars × (has_key env v ≡ false))))
check_required_lem_example = check_required_lem required env env
