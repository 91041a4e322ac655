-- ===== src/Task/Required.antt =====
-- The check of the inputs that a task requires.
use eirctl.Prelude.{◌≡◌, refl, arith, true, false, List, [], ◌∷◌, Text, All, In, ◌↔◌, ok, err}
use eirctl.Variables.{Variables, has_key}
use eirctl.Task.{
  RequiredInput, not_found, required_outcome, check_required, env_missing, vars_missing,
}

abbrev pub IsPresent : Variables → List Text → Type 0
IsPresent have names = All (λ v. has_key have v ≡ true) names

not_found_iff :
    (have : Variables) (names : List Text) → (not_found have names ≡ []) ↔ IsPresent have names
unfolding not_found
not_found_iff have [] = ground arith
not_found_iff have (v ∷ names) = ground (arith, not_found_iff have names)

-- A name is reported as missing if it is required and not there.
In-not_found :
    (have : Variables) (v : Text) (names : List Text)
    → In v (not_found have names) ↔ (In v names × (has_key have v ≡ false))
unfolding not_found
In-not_found have v [] = ground arith
In-not_found have v (n ∷ names) = ground (arith, In-not_found have v names)

outcome-ok : (es vs : List Text) → (required_outcome es vs ≡ ok tt) ↔ ((es ≡ []) × (vs ≡ []))
unfolding required_outcome
outcome-ok [] [] = ground arith
outcome-ok [] (v ∷ vs) = ground arith
outcome-ok (e ∷ es) vs = ground arith

outcome-env : (es vs l : List Text) → required_outcome es vs ≡ err (env_missing l) → es ≡ l
unfolding required_outcome
outcome-env [] [] l h = absurd (cc)
outcome-env [] (v ∷ vs) l h = absurd (cc)
outcome-env (e ∷ es) vs l h = cc

outcome-vars :
    (es vs l : List Text) → required_outcome es vs ≡ err (vars_missing l) → (es ≡ []) × (vs ≡ l)
unfolding required_outcome
outcome-vars [] [] l h = absurd (cc)
outcome-vars [] (v ∷ vs) l h = (refl, cc)
outcome-vars (e ∷ es) vs l h = absurd (cc)

-- The check passes if and only if every required variable of both kinds is there; a failure names
-- those that are not, of the environment if it lacks any.
pub check_required_lem :
    (ri : RequiredInput) (env vars : Variables)
    → ((check_required ri env vars ≡ ok tt) ↔ (IsPresent env ri.env × IsPresent vars ri.vars))
      × ((l : List Text)
          → check_required ri env vars ≡ err (env_missing l)
          → (v : Text) → In v l ↔ (In v ri.env × (has_key env v ≡ false)))
      × ((l : List Text)
          → check_required ri env vars ≡ err (vars_missing l)
          → IsPresent env ri.env
            × ((v : Text) → In v l ↔ (In v ri.vars × (has_key vars v ≡ false))))
unfolding check_required
check_required_lem ri env vars =
    let es = not_found env ri.env in
    let vs = not_found vars ri.vars in
    let all_env = not_found_iff env ri.env in
    let all_vars = not_found_iff vars ri.vars in
    (
      ground (arith, outcome-ok es vs),
      λ l h v. rw (← outcome-env es vs l h) (In-not_found env v ri.env),
      λ l h.
          let (none_env, same) = outcome-vars es vs l h in
          (all_env.0 none_env, λ v. rw (← same) (In-not_found vars v ri.vars)),
    )
