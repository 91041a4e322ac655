-- ===== src/Policy/Authority/Unprivileged.antt =====
-- What the tests of a job's authority say of its data, when they find none.
use eirctl.Prelude.{
  false_of_or, ◌≡◌, ◌≢◌, refl, sym, subst, ⊎_elim, ℕ, suc, ◌⊎◌, inl, inr, Bool, true, false, not,
  ◌&&◌, ◌||◌, List, [], ◌∷◌, some, Text, codes, Map, In, any, text_eq_iff, elem_iff, has_prefix,
  contains, ltb, length, arith,
}
use eirctl.Variables.{Any, null, bool, num, str, arr, obj}
use eirctl.Strings.{is_empty, trim_space}
use eirctl.Github.{GithubStep, GithubJob, GithubContainer, job_has}
use eirctl.Policy.{Library, Workflow, Permissions, scalar_value}
use eirctl.Policy.Steps.{any_value}
use eirctl.Policy.Authority.{
  runner_may_persist, has_secret_in_string_map, has_secret_in_map, step_has_secret_reference,
  has_secret_reference, job_secrets_configured, container_has_secret_marker, effective_permissions,
  grants_write, job_has_repository_or_secret_privilege, event_writes_default_branch_cache,
  push_can_target_default_branch, known_read_only_root_events,
}

-- A test that no value of a map passes.
pub any_value-eq-false :
    {V : Type 0} (p : V → Bool) (m : Map V)
    → any_value p m ≡ false
    → (k : Text) (v : V) → In (k, v) m
    → p v ≡ false
unfolding any_value
any_value-eq-false p [] e k v i = absurd i
any_value-eq-false p ((j, u) ∷ m) e k v i =
    let (here, rest) = false_of_or (p u) (any_value p m) e in
    ⊎_elim (λ same. subst (λ q. p q.1 ≡ false) (sym same) here) (any_value-eq-false p m rest k v) i

-- The text does not contain `secrets.`.
abbrev pub IsSecretFree : Text → Type 0
IsSecretFree s = contains s (codes "secrets.") ≡ false

abbrev pub IsSecretFreeStep : Library → GithubStep → Type 0
IsSecretFreeStep lib step =
    IsSecretFree step.run
    × IsSecretFree step.uses
    × ((k v : Text) → In (k, v) step.with → IsSecretFree v)
    × ((k : Text) (v : Any) → In (k, v) step.env → IsSecretFree (scalar_value lib v))

-- A job without a right to write, an environment, a text `secrets.` or secrets that it passes on.
-- Its container and its services are looked at as they are printed.
pub record IsUnprivileged (lib : Library) (w : Workflow) (job : GithubJob) : Type 0 where
  pub permissions :
      (name value : Text)
      → In (name, value) (effective_permissions w job)
      → (value ≢ codes "write") × (name ≡ codes "id-token" → value ≡ codes "none")
  pub environment : job.environment ≡ []
  pub workflow_env :
      (k : Text) (v : Any) → In (k, v) w.definition.env → IsSecretFree (scalar_value lib v)
  pub job_env : (k : Text) (v : Any) → In (k, v) job.env → IsSecretFree (scalar_value lib v)
  pub inputs : (k v : Text) → In (k, v) job.with → IsSecretFree v
  pub steps : (step : GithubStep) → In step job.steps → IsSecretFreeStep lib step
  pub secrets :
      job_has job (codes "secrets") ≡ true
      → (job.secrets ≡ null)
        ⊎ ((value : Text) × (job.secrets ≡ str value) × (trim_space value ≡ []))
  pub container :
      (c : GithubContainer) → job.container ≡ some c → IsSecretFree (lib.print_container c)
  pub services : IsSecretFree (lib.print_services job.services)

-- The job has no runner of its own, or one whose name begins like that of a hosted runner.
abbrev pub IsHosted : GithubJob → Type 0
IsHosted job =
    (job.runs_on ≡ [])
    ⊎ ((runner : Text) × (job.runs_on ≡ runner ∷ [])
        × ((has_prefix runner (codes "ubuntu-") ≡ true)
            ⊎ (has_prefix runner (codes "windows-") ≡ true)
            ⊎ (has_prefix runner (codes "macos-") ≡ true)))

-- An event that runs without the right to write the caches of the default branch, or a push whose
-- branches, in the workflow that declares it, leave out `main`.
abbrev pub IsCacheSafe : Library → Workflow → Text → Type 0
IsCacheSafe lib source event =
    In event (
      codes "pull_request"
      ∷ codes "pull_request_target"
      ∷ codes "issue_comment"
      ∷ codes "workflow_run"
      ∷ codes "workflow_call"
      ∷ [])
    ⊎ ((event ≡ codes "push") × (push_can_target_default_branch lib source ≡ false))

empty_of : (s : Text) → is_empty s ≡ true → s ≡ []
unfolding is_empty
empty_of [] e = refl
empty_of (c ∷ s) e = absurd (cc)

grants_write-eq-false :
    (permissions : Permissions) (name value : Text)
    → grants_write permissions ≡ false
    → In (name, value) permissions
    → (value ≢ codes "write") × (name ≡ codes "id-token" → value ≡ codes "none")
unfolding grants_write
grants_write-eq-false [] name value e i = absurd i
grants_write-eq-false ((n, v) ∷ permissions) name value e (inr i) =
    grants_write-eq-false permissions name value (ground arith) i
grants_write-eq-false ((n, v) ∷ permissions) name value e (inl same) =
    subst (λ q. (q.1 ≢ codes "write") × (q.0 ≡ codes "id-token" → q.1 ≡ codes "none")) (sym same)
      (ground (
        arith,
        text_eq_iff v (codes "write"),
        text_eq_iff n (codes "id-token"),
        text_eq_iff v (codes "none"),
      ))

step-IsSecretFree :
    (lib : Library) (steps : List GithubStep) (step : GithubStep)
    → any (step_has_secret_reference lib) steps ≡ false
    → In step steps
    → IsSecretFreeStep lib step
unfolding step_has_secret_reference has_secret_in_string_map has_secret_in_map
step-IsSecretFree lib [] step e i = absurd i
step-IsSecretFree lib (s ∷ steps) step e (inr i) =
    step-IsSecretFree lib steps step
      (false_of_or (step_has_secret_reference lib s) (any (step_has_secret_reference lib) steps)
        e).1
      i
step-IsSecretFree lib (s ∷ steps) step e (inl same) =
    let (this, _) =
      false_of_or (step_has_secret_reference lib s) (any (step_has_secret_reference lib) steps) e in
    subst (IsSecretFreeStep lib) (sym same) (parts this)
  where
    parts : step_has_secret_reference lib s ≡ false → IsSecretFreeStep lib s
    parts this =
        let marker = codes "secrets." in
        let run = contains s.run marker in
        let uses = contains s.uses marker in
        let inputs = any_value (λ value. contains value marker) s.with in
        let env = any_value (λ value. contains (scalar_value lib value) marker) s.env in
        let (before, in_env) = false_of_or (run || uses || inputs) env (ground arith) in
        let (both, in_inputs) = false_of_or (run || uses) inputs (ground arith) in
        let (in_run, in_uses) = false_of_or run uses (ground arith) in
        (
          in_run,
          in_uses,
          any_value-eq-false (λ value. contains value marker) s.with in_inputs,
          any_value-eq-false (λ value. contains (scalar_value lib value) marker) s.env in_env,
        )

job_secrets_configured-eq-false :
    (job : GithubJob)
    → job_secrets_configured job ≡ false
    → job_has job (codes "secrets") ≡ true
    → (job.secrets ≡ null) ⊎ ((value : Text) × (job.secrets ≡ str value) × (trim_space value ≡ []))
unfolding job_secrets_configured
job_secrets_configured-eq-false job e has = by_value job.secrets refl
  where
    set : true ≡ false → ⊥
    set q = cc

    shut : (b : Bool) → not b ≡ false → b ≡ true
    shut b q = ground arith

    by_value :
        (v : Any)
        → job.secrets ≡ v
        → (job.secrets ≡ null)
          ⊎ ((value : Text) × (job.secrets ≡ str value) × (trim_space value ≡ []))
    by_value null same = inl same
    by_value (str value) same = inr (
      value,
      same,
      empty_of (trim_space value)
          (shut (is_empty (trim_space value)) (rw (has, same, job_secrets_configured) at e)),
    )
    by_value (bool b) same = absurd (set (rw (has, same, job_secrets_configured) at e))
    by_value (num n) same = absurd (set (rw (has, same, job_secrets_configured) at e))
    by_value (arr items) same = absurd (set (rw (has, same, job_secrets_configured) at e))
    by_value (obj fields) same = absurd (set (rw (has, same, job_secrets_configured) at e))

pub privilege-eq-false :
    (lib : Library) (w : Workflow) (job : GithubJob)
    → job_has_repository_or_secret_privilege lib w job ≡ false
    → IsUnprivileged lib w job
unfolding job_has_repository_or_secret_privilege is_empty has_secret_in_map has_secret_in_string_map
    has_secret_reference container_has_secret_marker
privilege-eq-false lib w job e =
    let (a, b, c, d, f, g, h, k, l) =
      nine (grants_write (effective_permissions w job)) (is_empty job.environment)
        (has_secret_in_map lib w.definition.env) (has_secret_in_map lib job.env)
        (has_secret_in_string_map job.with) (has_secret_reference lib job)
        (job_secrets_configured job) (container_has_secret_marker lib job.container)
        (contains (lib.print_services job.services) (codes "secrets.")) e in
    record {
      permissions =
          λ name value i. grants_write-eq-false (effective_permissions w job) name value a i;
      environment = empty_of job.environment b;
      workflow_env = λ key v i.
          any_value-eq-false (λ x. contains (scalar_value lib x) (codes "secrets."))
            w.definition.env c key v i;
      job_env = λ key v i.
          any_value-eq-false (λ x. contains (scalar_value lib x) (codes "secrets.")) job.env d key v
            i;
      inputs =
          λ key v i. any_value-eq-false (λ x. contains x (codes "secrets.")) job.with f key v i;
      steps = λ step i. step-IsSecretFree lib job.steps step g i;
      secrets = λ has. job_secrets_configured-eq-false job h has;
      container = λ x same. rw (same, container_has_secret_marker) at k;
      services = l;
    }
  where
    nine :
        (a b c d f g h k l : Bool)
        → (a || not b || c || d || f || g || h || k || l) ≡ false
        → (a ≡ false)
          × (b ≡ true)
          × (c ≡ false)
          × (d ≡ false)
          × (f ≡ false)
          × (g ≡ false)
          × (h ≡ false)
          × (k ≡ false)
          × (l ≡ false)
    nine a b c d f g h k l e = ground arith

pub runner_may_persist-eq-false : (job : GithubJob) → runner_may_persist job ≡ false → IsHosted job
unfolding runner_may_persist
runner_may_persist-eq-false job e = by_runners job.runs_on refl
  where
    prefixed :
        (u v m : Bool) → (not u && not v && not m) ≡ false → (u ≡ true) ⊎ (v ≡ true) ⊎ (m ≡ true)
    prefixed u v m q = ground arith

    many : (n : ℕ) → ltb 0 (suc (suc n)) ≡ false → ⊥
    many n q = ground arith

    by_runners : (runners : List Text) → job.runs_on ≡ runners → IsHosted job
    by_runners [] same = inl same
    by_runners (runner ∷ []) same = inr (
      runner,
      same,
      prefixed (has_prefix runner (codes "ubuntu-")) (has_prefix runner (codes "windows-"))
          (has_prefix runner (codes "macos-")) (rw (same, runner_may_persist) at e),
    )
    by_runners (runner ∷ other ∷ runners) same =
        absurd (many (length runners) (rw (same, runner_may_persist) at e))

pub event_writes_default_branch_cache-eq-false :
    (lib : Library) (source : Workflow) (event : Text)
    → event_writes_default_branch_cache lib source event ≡ false
    → IsCacheSafe lib source event
unfolding event_writes_default_branch_cache
event_writes_default_branch_cache-eq-false lib source event e = ground (
  arith,
  text_eq_iff event (codes "push"),
  text_eq_iff event (codes "workflow_call"),
  elem_iff event known_read_only_root_events,
)
