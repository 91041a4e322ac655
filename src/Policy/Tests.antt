-- ===== src/Policy/Tests.antt =====
-- The policy on two workflows: one that runs the code of a pull request and calls the other.
use eirctl.Prelude.{
  ◌≡◌, refl, inl, inr, ◌↔◌, ◌⊎◌, true, List, [], ◌∷◌, none, some, Text, codes, Map, In, IsMap,
  lookup, has, elem, text_eq, has_prefix, contains, Split,
}
use eirctl.Strings.{
  is_empty, to_lower, lower_char, equal_fold, trim_space, trim_left, is_space, trim_prefix,
  before_last, single_stars,
}
use eirctl.Github.{GithubStep, GithubJob, has_event, configured_names, job_has}
use eirctl.Github.Values.{events_of, no_step, no_job}
use eirctl.Policy.{Library, Workflow, Error, scalar_value, text_at}
use eirctl.Policy.Steps.{
  any_value, contains_one, action_uses, is_hex, hex_then_at, is_pinned, trusted_workflow_run,
  has_untrusted_shell_checkout, is_untrusted_checkout, executes_workspace,
  executes_after_untrusted_checkout, job_has_untrusted_shell_checkout,
  job_has_privileged_pr_execution,
}
use eirctl.Policy.Steps.Executes.{RunsCheckout, job_has_privileged_pr_execution_iff}
use eirctl.Policy.Steps.Pinned.{IsHexSuffix}
use eirctl.Policy.Events.{
  EffectiveRootEvent, Entry, same_event, has_entry, local_reusable_workflow_path, root_entries,
  direct_root_events, direct_entries, called_paths, calls_from, calls, propagate_root_events,
  propagate_reusable_events, settle, rounds, resolve_effective_root_events, events_at,
}
use eirctl.Policy.Events.Reach.{StartedBy, resolve_effective_root_events-StartedBy}
use eirctl.Policy.Authority.{
  matches_main, includes_main, ignores_main, push_can_target_default_branch,
  event_writes_default_branch_cache, event_uses_protected_default_branch_source, runner_may_persist,
  has_secret_in_string_map, has_secret_in_map, step_has_secret_reference, has_secret_reference,
  job_secrets_configured, container_has_secret_marker, effective_permissions, grants_write,
  job_has_repository_or_secret_privilege, source_of, add_event, add_events, authority_for_job,
}
use eirctl.Policy.Permitted.{
  read_contents, has_expected, same_permissions, expected_workflow_permissions,
  expected_job_permissions,
}
use eirctl.Policy.Permitted.Exact.{IsGranting, same_permissions_iff}
use eirctl.Policy.Flow.{
  has_trigger, validate_action, validate_actions, is_dangerous_checkout,
  reject_scorecard_dangerous_checkouts, validate_job, validate_workflow, is_reusable_call,
  validate_job_flow, validate_privileged_flow, validate_flows, validate_loaded,
}
use eirctl.Policy.Flow.Passed.{validate_loaded-permissions, validate_loaded-pinned}

unfoldable pub policing : Unit {0}
unfolding is_empty to_lower lower_char equal_fold trim_space trim_left is_space trim_prefix
    before_last single_stars has_event configured_names job_has scalar_value text_at any_value
    contains_one action_uses is_hex hex_then_at is_pinned trusted_workflow_run
    has_untrusted_shell_checkout is_untrusted_checkout executes_workspace
    executes_after_untrusted_checkout job_has_untrusted_shell_checkout
    job_has_privileged_pr_execution same_event has_entry local_reusable_workflow_path root_entries
    direct_root_events direct_entries called_paths calls_from calls propagate_root_events
    propagate_reusable_events settle rounds resolve_effective_root_events events_at matches_main
    includes_main ignores_main push_can_target_default_branch event_writes_default_branch_cache
    event_uses_protected_default_branch_source runner_may_persist has_secret_in_string_map
    has_secret_in_map step_has_secret_reference has_secret_reference job_secrets_configured
    container_has_secret_marker effective_permissions grants_write
    job_has_repository_or_secret_privilege source_of add_event add_events authority_for_job
    has_expected same_permissions expected_workflow_permissions expected_job_permissions has_trigger
    validate_action validate_actions is_dangerous_checkout reject_scorecard_dangerous_checkouts
    validate_job validate_workflow is_reusable_call validate_job_flow validate_privileged_flow
    validate_flows validate_loaded lookup has elem text_eq has_prefix contains
policing = tt

-- Values are not printed here, every digest is the same, and a pattern matches its own text.
abbrev pub lib_with : Text → Library
lib_with digest = record {
  show = λ value. [];
  print_container = λ container. [];
  print_services = λ services. [];
  digest = λ content. digest;
  match = λ pattern name. some (text_eq pattern name);
}

abbrev lib : Library
lib = lib_with []

abbrev checkout : GithubStep
checkout = record no_step {
  uses = codes "actions/checkout@0123456789abcdef0123456789abcdef01234567";
  with = (codes "ref", codes "${{ github.event.pull_request.head.sha }}") ∷ [];
}

abbrev test_step : GithubStep
test_step = record no_step { run = codes "make test" }

abbrev test_job : GithubJob
test_job = record no_job { runs_on = codes "ubuntu-latest" ∷ []; steps = checkout ∷ test_step ∷ [] }

abbrev call_job : GithubJob
call_job = record no_job { uses = codes "./.github/workflows/reuse.yml" }

abbrev pub workflow_on : Text → Text → Map GithubJob → Workflow
workflow_on path event jobs = record {
  path = path;
  definition = record {
    name = [];
    on = some (events_of (event ∷ []));
    jobs = record { ordered = []; values = jobs };
    defaults = none;
    env = [];
    permissions = read_contents;
    concurrency = none;
  };
}

abbrev check_path : Text
check_path = codes ".github/workflows/check.yml"

abbrev reuse_path : Text
reuse_path = codes ".github/workflows/reuse.yml"

abbrev check : Workflow
check =
    workflow_on check_path (codes "pull_request")
      ((codes "call", call_job) ∷ (codes "test", test_job) ∷ [])

abbrev reuse : Workflow
reuse = workflow_on reuse_path (codes "workflow_call") ((codes "test", test_job) ∷ [])

abbrev workflows : Map Workflow
workflows = (check_path, check) ∷ (reuse_path, reuse) ∷ []

abbrev any_topology : Map Workflow → Error
any_topology ws = none

abbrev pull_request : EffectiveRootEvent
pull_request = record { name = codes "pull_request"; source_path = check_path }

workflows-passed : validate_loaded lib any_topology workflows ≡ none
unfolding policing
workflows-passed = refl

resolved :
    resolve_effective_root_events workflows
    ≡ some ((reuse_path, pull_request) ∷ (check_path, pull_request) ∷ [])
unfolding policing
resolved = refl

resolve_effective_root_events-StartedBy_example :
    (result : List Entry) × (resolve_effective_root_events workflows ≡ some result)
    × ((path : Text) (ev : EffectiveRootEvent)
        → In ev (events_at path result) ↔ StartedBy workflows path ev)
resolve_effective_root_events-StartedBy_example = resolve_effective_root_events-StartedBy workflows

read_contents-IsMap : IsMap read_contents
read_contents-IsMap = (λ i. i, tt)

test_job-IsMap : IsMap (effective_permissions check test_job)
unfolding policing
test_job-IsMap = (λ i. i, tt)

validate_loaded-permissions_example :
    lookup (codes "packages") (effective_permissions check test_job)
    ≡ lookup (codes "packages") (expected_job_permissions check (codes "test"))
validate_loaded-permissions_example =
    validate_loaded-permissions lib any_topology workflows check_path (codes "test") check test_job
      workflows-passed (inl refl) (inr (inl refl)) test_job-IsMap (codes "packages")

validate_loaded-pinned_example :
    (checkout.uses ≡ [])
    ⊎ (has_prefix checkout.uses (codes "./") ≡ true)
    ⊎ ((has_prefix checkout.uses (codes "docker://") ≡ true)
        × (contains checkout.uses (codes "@sha256:") ≡ true))
    ⊎ IsHexSuffix 40 checkout.uses
validate_loaded-pinned_example =
    validate_loaded-pinned lib any_topology workflows check_path (codes "test") check test_job
      checkout workflows-passed (inl refl) (inr (inl refl)) (inl refl)

read_contents-IsGranting : IsGranting read_contents
read_contents-IsGranting = (λ e. absurd (cc), tt)

same_permissions_iff_example :
    (same_permissions read_contents read_contents ≡ true)
    ↔ ((k : Text) → lookup k read_contents ≡ lookup k read_contents)
same_permissions_iff_example =
    same_permissions_iff read_contents read_contents read_contents-IsMap read_contents-IsMap
      read_contents-IsGranting

job_has_privileged_pr_execution_iff_example :
    (job_has_privileged_pr_execution lib test_job ≡ true) ↔ (
      RunsCheckout test_job test_job.steps
      ⊎ Split (has_untrusted_shell_checkout lib) test_job.steps)
job_has_privileged_pr_execution_iff_example = job_has_privileged_pr_execution_iff lib test_job
