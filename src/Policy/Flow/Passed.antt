-- ===== src/Policy/Flow/Passed.antt =====
-- What each job and each of its steps is like once the checks have passed.
use eirctl.Prelude.{
  ◌≡◌, refl, Bool, true, false, not, ◌||◌, [], ◌∷◌, none, Text, codes, Map, lookup, IsMap, In, ◌⊎◌,
  inl, inr, arith, has_prefix, contains, if◌then◌else◌,
}
use eirctl.Strings.{is_empty}
use eirctl.Github.{GithubStep, GithubJob}
use eirctl.Policy.{
  Library, Workflow, PolicyFault, Error, jobs_of, unexpected_job_permissions, unpinned_action,
  unpinned_docker_action, unexpected_workflow_permissions, fail_if, first_error, ◌then◌,
}
use eirctl.Policy.Checks.{then-eq-none_iff, fail_if-eq-none_iff, first_error-eq-none_iff}
use eirctl.Policy.Steps.{is_pinned}
use eirctl.Policy.Steps.Pinned.{IsHexSuffix, is_pinned_iff}
use eirctl.Policy.Authority.{effective_permissions}
use eirctl.Policy.Permitted.{
  same_permissions, expected_job_permissions, expected_workflow_permissions,
}
use eirctl.Policy.Permitted.Exact.{same_permissions_iff}
use eirctl.Policy.Permitted.Table.{expected_job_permissions-IsMap}
use eirctl.Policy.Flow.{
  validate_action, validate_actions, validate_job, validate_workflow, validate_loaded,
  reject_scorecard_dangerous_checkouts,
}
use eirctl.Policy.Flow.Isolation.{validate_loaded-eq-none_iff}

-- The check of a job, from the check of all workflows.
job_of :
    (lib : Library) (topology : Map Workflow → Error) (ws : Map Workflow) (path id : Text)
    (w : Workflow) (job : GithubJob)
    → validate_loaded lib topology ws ≡ none
    → In (path, w) ws
    → In (id, job) (jobs_of w)
    → (same_permissions (effective_permissions w job) (expected_job_permissions w id) ≡ true)
      × (validate_actions w.path job ≡ none)
unfolding validate_workflow validate_job
job_of lib topology ws path id w job passed i j =
    let (_, each, _, _) = (validate_loaded-eq-none_iff lib topology ws).0 passed in
    let one = (first_error-eq-none_iff (λ (p, v). validate_workflow v) ws).0 each (path, w) i in
    let refused = unexpected_workflow_permissions w.path in
    let (_, rest) =
      (then-eq-none_iff
          (fail_if
            (not (same_permissions w.definition.permissions (expected_workflow_permissions w.path)))
            refused)
          (first_error (validate_job w) (jobs_of w) then reject_scorecard_dangerous_checkouts w)).0
        one in
    let (jobs, _) =
      (then-eq-none_iff (first_error (validate_job w) (jobs_of w))
          (reject_scorecard_dangerous_checkouts w)).0
        rest in
    let this = (first_error-eq-none_iff (validate_job w) (jobs_of w)).0 jobs (id, job) j in
    let same = same_permissions (effective_permissions w job) (expected_job_permissions w id) in
    let (permitted, actions) =
      (then-eq-none_iff (fail_if (not same) (unexpected_job_permissions w.path id))
          (validate_actions w.path job)).0
        this in
    (
      of_not same
          ((fail_if-eq-none_iff (not same) (unexpected_job_permissions w.path id)).0 permitted),
      actions,
    )
  where
    of_not : (b : Bool) → not b ≡ false → b ≡ true
    of_not b e = ground arith

-- When the checks have passed, every job has exactly the permissions of the table: the same value
-- for every name, where the job's permissions are a map.
pub validate_loaded-permissions :
    (lib : Library) (topology : Map Workflow → Error) (ws : Map Workflow) (path id : Text)
    (w : Workflow) (job : GithubJob)
    → validate_loaded lib topology ws ≡ none
    → In (path, w) ws
    → In (id, job) (jobs_of w)
    → IsMap (effective_permissions w job)
    → (name : Text)
    → lookup name (effective_permissions w job) ≡ lookup name (expected_job_permissions w id)
validate_loaded-permissions lib topology ws path id w job passed i j m name =
    let (same, _) = job_of lib topology ws path id w job passed i j in
    let (d, g) = expected_job_permissions-IsMap w id in
    (same_permissions_iff (effective_permissions w job) (expected_job_permissions w id) m d g).0
      same name

-- When the checks have passed, every step names no action, one that begins with `./`, one that
-- begins with `docker://` and contains `@sha256:`, or one that ends with `@` and forty hexadecimal
-- digits.
pub validate_loaded-pinned :
    (lib : Library) (topology : Map Workflow → Error) (ws : Map Workflow) (path id : Text)
    (w : Workflow) (job : GithubJob) (step : GithubStep)
    → validate_loaded lib topology ws ≡ none
    → In (path, w) ws
    → In (id, job) (jobs_of w)
    → In step job.steps
    → (step.uses ≡ [])
      ⊎ (has_prefix step.uses (codes "./") ≡ true)
      ⊎ ((has_prefix step.uses (codes "docker://") ≡ true)
          × (contains step.uses (codes "@sha256:") ≡ true))
      ⊎ IsHexSuffix 40 step.uses
unfolding validate_actions validate_action is_empty
validate_loaded-pinned lib topology ws path id w job step passed i j k =
    let (_, actions) = job_of lib topology ws path id w job passed i j in
    let one = (first_error-eq-none_iff (validate_action w.path) job.steps).0 actions step k in
    let (pinned, _) = is_pinned_iff step.uses in
    let split =
      branches (is_empty step.uses) (has_prefix step.uses (codes "./"))
        (has_prefix step.uses (codes "docker://")) (contains step.uses (codes "@sha256:"))
        (is_pinned step.uses) (unpinned_docker_action w.path step.uses)
        (unpinned_action w.path step.uses) one in
    elim split [
      | inl e ↦ inl (none_of step.uses e)
      | inr (inl e) ↦ inr (inl e)
      | inr (inr (inl e)) ↦ inr (inr (inl e))
      | inr (inr (inr e)) ↦ inr (inr (inr (pinned e)))
    ]
  where
    none_of : (s : Text) → is_empty s ≡ true → s ≡ []
    none_of [] e = refl
    none_of (c ∷ s) e = absurd (cc)

    branches :
        (empty local docker digest pin : Bool) (f g : PolicyFault)
        → (if empty || local
            then none
            else if docker
            then fail_if (not digest) f
            else fail_if (not pin) g)
          ≡ none
        → (empty ≡ true) ⊎ (local ≡ true) ⊎ ((docker ≡ true) × (digest ≡ true)) ⊎ (pin ≡ true)
    branches empty local docker digest pin f g e = ground arith
