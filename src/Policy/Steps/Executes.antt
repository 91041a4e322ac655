-- ===== src/Policy/Steps/Executes.antt =====
-- When a job runs what a pull request controls: the loops against the order of the steps.
use eirctl.Prelude.{
  or_of_left, or_of_right, true_of_and, true_of_rest, ◌≡◌, refl, sym, ap, ◌∙◌, subst, ◌↔◌, ◌⊎◌, inl,
  inr, Bool, true, ◌&&◌, List, [], ◌∷◌, ◌++◌, arith, any, any_iff, Split, Bool-cases, if◌then◌else◌,
}
use eirctl.Github.{GithubStep, GithubJob}
use eirctl.Policy.{Library}
use eirctl.Policy.Steps.{
  is_untrusted_checkout, executes_workspace, executes_after_untrusted_checkout,
  has_untrusted_shell_checkout, job_has_untrusted_shell_checkout, job_has_privileged_pr_execution,
}

-- A checkout of untrusted content, and behind it a step that runs what lies in the workspace.
abbrev pub RunsCheckout : GithubJob → List GithubStep → Type 0
RunsCheckout job steps =
    (before : List GithubStep) × (checkout : GithubStep) × (behind : List GithubStep) × (steps
      ≡ before ++ checkout ∷ behind)
    × (is_untrusted_checkout checkout job ≡ true)
    × Split executes_workspace behind

executes_after_untrusted_checkout_iff :
    (job : GithubJob) (steps : List GithubStep)
    → (executes_after_untrusted_checkout job steps ≡ true) ↔ RunsCheckout job steps
unfolding executes_after_untrusted_checkout
executes_after_untrusted_checkout_iff job [] =
    (λ e. absurd (cc), λ (before, c, behind, e, _, _). absurd (empty before c behind e))
  where
    empty :
        (before : List GithubStep) (c : GithubStep) (behind : List GithubStep)
        → [] ≡ before ++ c ∷ behind
        → ⊥
    empty [] c behind e = cc
    empty (b ∷ before) c behind e = cc
executes_after_untrusted_checkout_iff job (step ∷ steps) =
    let (go, back) = executes_after_untrusted_checkout_iff job steps in
    (
      λ e. elim (Bool-cases (is_untrusted_checkout step job && any executes_workspace steps)) [
        | inl here ↦
            let (out, runs) =
              true_of_and (is_untrusted_checkout step job) (any executes_workspace steps) here in
            ([], step, steps, refl, out, (any_iff executes_workspace steps).0 runs)
        | inr there ↦
            let (before, c, behind, same, out, runs) = go (rw there at e) in
            (step ∷ before, c, behind, ap (λ l. step ∷ l) same, out, runs)
      ],
      λ (before, c, behind, e, out, runs). at before c behind e out runs back,
    )
  where
    first : (a b r : Bool) → a ≡ true → b ≡ true → (if a && b then true else r) ≡ true
    first a b r e f = ground arith

    later : (a r : Bool) → r ≡ true → (if a then true else r) ≡ true
    later a r e = ground arith

    at :
        (before : List GithubStep) (c : GithubStep) (behind : List GithubStep)
        → step ∷ steps ≡ before ++ c ∷ behind
        → is_untrusted_checkout c job ≡ true
        → Split executes_workspace behind
        → (RunsCheckout job steps → executes_after_untrusted_checkout job steps ≡ true)
        → executes_after_untrusted_checkout job (step ∷ steps) ≡ true
    at [] c behind e out runs back =
        let same : step ≡ c = cc in
        let rest : steps ≡ behind = cc in
        first (is_untrusted_checkout step job) (any executes_workspace steps)
          (executes_after_untrusted_checkout job steps)
          (ap (λ s. is_untrusted_checkout s job) same ∙ out)
          ((any_iff executes_workspace steps).1
            (subst (λ l. Split executes_workspace l) (sym rest) runs))
    at (b ∷ before) c behind e out runs back =
        let rest : steps ≡ before ++ c ∷ behind = cc in
        later (is_untrusted_checkout step job && any executes_workspace steps)
          (executes_after_untrusted_checkout job steps) (back (before, c, behind, rest, out, runs))

-- A job runs content of a pull request exactly when a step checks untrusted content out and a
-- later step runs what lies in the workspace, or a step checks it out with a command.
pub job_has_privileged_pr_execution_iff :
    (lib : Library) (job : GithubJob)
    → (job_has_privileged_pr_execution lib job ≡ true)
      ↔ (RunsCheckout job job.steps ⊎ Split (has_untrusted_shell_checkout lib) job.steps)
unfolding job_has_privileged_pr_execution job_has_untrusted_shell_checkout
job_has_privileged_pr_execution_iff lib job =
    let (go, back) = executes_after_untrusted_checkout_iff job job.steps in
    let (shell, shell') = any_iff (has_untrusted_shell_checkout lib) job.steps in
    (
      λ e. elim (Bool-cases (executes_after_untrusted_checkout job job.steps)) [
        | inl runs ↦ inl (go runs)
        | inr other ↦ inr (
            shell (
              true_of_rest (executes_after_untrusted_checkout job job.steps)
                (any (has_untrusted_shell_checkout lib) job.steps) e other))
      ],
      λ h. elim h [
        | inl runs ↦
            or_of_left (executes_after_untrusted_checkout job job.steps)
              (any (has_untrusted_shell_checkout lib) job.steps) (back runs)
        | inr runs ↦
            or_of_right (executes_after_untrusted_checkout job job.steps)
              (any (has_untrusted_shell_checkout lib) job.steps) (shell' runs)
      ],
    )
