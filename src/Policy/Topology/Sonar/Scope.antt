-- ===== src/Policy/Topology/Sonar/Scope.antt =====
-- Which steps are free of the token and of secrets.
use eirctl.Prelude.{
  false_of_or, ◌≡◌, subst, ℕ, zero, suc, ◌+◌, Bool, true, false, not, ◌&&◌, ◌||◌, List, [], ◌∷◌,
  some, Text, codes, In, text_eq, text_eq_iff, inl, inr, ◌⊎◌, contains, ◌==◌, length, arith,
  if◌then◌else◌,
}
use eirctl.Variables.{Any}
use eirctl.Github.{GithubStep, GithubJob}
use eirctl.Policy.{Library, Workflow, scalar_value}
use eirctl.Policy.Steps.{any_value}
use eirctl.Policy.Authority.{has_secret_in_map}
use eirctl.Policy.Authority.Unprivileged.{IsSecretFree, any_value-eq-false}
use eirctl.Policy.Topology.{any_at, step_at}
use eirctl.Policy.Topology.Sonar.Token.{
  step_contains_forbidden_sonar_reference, scanner_step_secret_scope_valid, all_secret_scopes_valid,
  only_scanner_receives_sonar_token,
}

-- The text does not name the token.
abbrev pub IsTokenFree : Text → Type 0
IsTokenFree s = contains s (codes "SONAR_TOKEN") ≡ false

scope_at :
    (lib : Library) (steps : List GithubStep) (start scanner i : ℕ) (step : GithubStep)
    → all_secret_scopes_valid lib steps start scanner ≡ true
    → step_at i steps ≡ some step
    → scanner_step_secret_scope_valid lib step (i + start) scanner ≡ true
unfolding all_secret_scopes_valid step_at
scope_at lib [] start scanner i step all e = absurd (cc)
scope_at lib (s ∷ steps) start scanner zero step all e =
    let same : s ≡ step = cc in
    let here : start ≡ 0 + start = omega arith in
    subst (λ n. scanner_step_secret_scope_valid lib step n scanner ≡ true) here
      (subst (λ t. scanner_step_secret_scope_valid lib t start scanner ≡ true) same
        (left (scanner_step_secret_scope_valid lib s start scanner)
          (all_secret_scopes_valid lib steps (suc start) scanner) all))
  where
    left : (a b : Bool) → (a && b) ≡ true → a ≡ true
    left a b h = ground arith
scope_at lib (s ∷ steps) start scanner (suc i) step all e =
    let later =
      scope_at lib steps (suc start) scanner i step
        (right (scanner_step_secret_scope_valid lib s start scanner)
          (all_secret_scopes_valid lib steps (suc start) scanner) all)
        e in
    let same : i + suc start ≡ suc i + start = omega arith in
    subst (λ n. scanner_step_secret_scope_valid lib step n scanner ≡ true) same later
  where
    right : (a b : Bool) → (a && b) ≡ true → b ≡ true
    right a b h = ground arith

-- If only the scanner receives the token, no value in the environments of the workflow and of the
-- job contains `secrets.`. No step names `SONAR_TOKEN` in its command or its action, and none of its
-- inputs contains `SONAR_TOKEN` or `secrets.`. No value in the environment of a step contains one of
-- them, unless it is the scanner, whose only variable is then the token, as the expression for it.
pub only_scanner_receives_sonar_token_lem :
    (lib : Library) (w : Workflow) (job : GithubJob) (scanner i : ℕ) (step : GithubStep)
    → only_scanner_receives_sonar_token lib w job scanner ≡ true
    → step_at i job.steps ≡ some step
    → ((name : Text) (value : Any)
        → In (name, value) w.definition.env
        → IsSecretFree (scalar_value lib value))
      × ((name : Text) (value : Any)
          → In (name, value) job.env
          → IsSecretFree (scalar_value lib value))
      × IsTokenFree step.run
      × IsTokenFree step.uses
      × ((name value : Text) → In (name, value) step.with → IsTokenFree value × IsSecretFree value)
      × (((name : Text) (value : Any)
            → In (name, value) step.env
            → IsTokenFree (scalar_value lib value) × IsSecretFree (scalar_value lib value))
          ⊎ ((i ≡ scanner)
              × (scalar_value lib (any_at (codes "SONAR_TOKEN") step.env)
                  ≡ codes "${{ secrets.SONAR_TOKEN }}")
              × (length step.env ≡ 1)))
unfolding only_scanner_receives_sonar_token scanner_step_secret_scope_valid has_secret_in_map
    step_contains_forbidden_sonar_reference
only_scanner_receives_sonar_token_lem lib w job scanner i step e at =
    let (outer, inner, all) =
      start (has_secret_in_map lib w.definition.env) (has_secret_in_map lib job.env)
        (all_secret_scopes_valid lib job.steps 0 scanner) e in
    let shifted = scope_at lib job.steps 0 scanner i step all at in
    let here : i + 0 ≡ i = omega arith in
    let scope =
      subst (λ n. scanner_step_secret_scope_valid lib step n scanner ≡ true) here shifted in
    let token = scalar_value lib (any_at (codes "SONAR_TOKEN") step.env) in
    let secret = λ (v : Any). contains (scalar_value lib v) (codes "secrets.") in
    let named = λ (v : Any). contains (scalar_value lib v) (codes "SONAR_TOKEN") || secret v in
    let input = λ (v : Text). contains v (codes "SONAR_TOKEN") || contains v (codes "secrets.") in
    let (run, uses, inputs, env) =
      parts (any_value named step.env) i scanner
        (text_eq token (codes "${{ secrets.SONAR_TOKEN }}")) (length step.env)
        (contains step.run (codes "SONAR_TOKEN")) (contains step.uses (codes "SONAR_TOKEN"))
        (any_value input step.with) scope in
    (
      any_value-eq-false secret w.definition.env outer,
      any_value-eq-false secret job.env inner,
      run,
      uses,
      λ name value m.
          false_of_or (contains value (codes "SONAR_TOKEN")) (contains value (codes "secrets."))
            (any_value-eq-false input step.with inputs name value m),
      elim env [
        | inl clean ↦ inl (λ name value m.
            false_of_or (contains (scalar_value lib value) (codes "SONAR_TOKEN")) (secret value)
              (any_value-eq-false named step.env clean name value m))
        | inr (same, is_token, one) ↦
            inr (same, (text_eq_iff token (codes "${{ secrets.SONAR_TOKEN }}")).0 is_token, one)
      ],
    )
  where
    start :
        (a b c : Bool)
        → (if a || b then false else c) ≡ true
        → (a ≡ false) × (b ≡ false) × (c ≡ true)
    start a b c h = ground arith

    parts :
        (named : Bool) (i n : ℕ) (t : Bool) (l : ℕ) (run uses inputs : Bool)
        → (not (named && not (i == n && t && l == 1)) && not (run || uses || inputs)) ≡ true
        → (run ≡ false)
          × (uses ≡ false)
          × (inputs ≡ false)
          × ((named ≡ false) ⊎ ((i ≡ n) × (t ≡ true) × (l ≡ 1)))
    parts named i n t l run uses inputs h = ground arith
