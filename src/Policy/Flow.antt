-- ===== src/Policy/Flow.antt =====
-- The checks on each workflow, the check of what its jobs may do, and the run over all of them.
pub mod Isolation
pub mod Passed
use eirctl.Prelude.{
  ◌≡◌, refl, ℕ, zero, suc, Bool, true, false, not, ◌&&◌, ◌||◌, List, [], ◌∷◌, ◌++◌, Option, none,
  some, Text, codes, Map, lookup, insert, has, any, text_eq, has_prefix, contains, if◌then◌else◌,
  length, ◌==◌, Result, ok, err, ◌>>=◌, filter_by,
}
use eirctl.Strings.{is_empty, extension}
use eirctl.Github.{
  GithubStep, GithubJob, GithubWorkflow, GithubTriggerEvents, has_event, configured_names, job_has,
  OrderedMap,
}
use eirctl.Policy.{
  Library, Workflow, Permissions, PolicyFault, unreadable_directory, unreadable, invalid_yaml,
  needs_jobs, no_workflow_files, unexpected_workflow_permissions, unexpected_job_permissions,
  unpinned_docker_action, unpinned_action, dangerous_checkout, privileged_reusable_call,
  executes_with_cache_write, executes_with_privilege, executes_on_persistent_runner, out_of_rounds,
  Error, ◌then◌, first_error, fail_if, text_at, jobs_of,
}
use eirctl.Policy.Steps.{checkout_action, action_uses, is_pinned, job_has_privileged_pr_execution}
use eirctl.Policy.Events.{
  EffectiveRootEvent, Entry, local_reusable_workflow_path, root_entries,
  resolve_effective_root_events, direct_root_events, events_at,
}
use eirctl.Policy.Authority.{JobAuthority, authority_for_job, effective_permissions}
use eirctl.Policy.Permitted.{
  same_permissions, expected_workflow_permissions, expected_job_permissions,
}

unfoldable pub has_trigger : Workflow → Text → Bool
has_trigger w name = has_event w.definition.on name

unfoldable pub has_all_events : Workflow → List Text → Bool
has_all_events w [] = true
has_all_events w (name ∷ names) = has_event w.definition.on name && has_all_events w names

unfoldable pub has_only_triggers : Workflow → List Text → Bool
has_only_triggers w expected =
    length (configured_names w.definition.on) == length expected && has_all_events w expected

-- The check of one step's action.
unfoldable pub validate_action : Text → GithubStep → Error
validate_action path step =
    if is_empty step.uses || has_prefix step.uses (codes "./")
    then none
    else if has_prefix step.uses (codes "docker://")
    then fail_if (not (contains step.uses (codes "@sha256:")))
        (unpinned_docker_action path step.uses)
    else fail_if (not (is_pinned step.uses)) (unpinned_action path step.uses)

unfoldable pub validate_actions : Text → GithubJob → Error
validate_actions path job = first_error (validate_action path) job.steps

unfoldable pub is_dangerous_checkout : GithubStep → Bool
is_dangerous_checkout step =
    let ref = text_at (codes "ref") step.with in
    action_uses step.uses checkout_action
    && (contains ref (codes "github.event.pull_request")
        || contains ref (codes "github.event.workflow_run"))

unfoldable pub reject_scorecard_dangerous_checkouts : Workflow → Error
reject_scorecard_dangerous_checkouts w =
    if not (has_trigger w (codes "pull_request_target"))
      && not (has_trigger w (codes "workflow_run"))
    then none
    else first_error
        (λ (id, job).
          first_error (λ step. fail_if (is_dangerous_checkout step) (dangerous_checkout w.path id))
            job.steps)
        (jobs_of w)

unfoldable pub validate_job : Workflow → Text × GithubJob → Error
validate_job w (id, job) =
    fail_if (not (same_permissions (effective_permissions w job) (expected_job_permissions w id)))
      (unexpected_job_permissions w.path id)
    then validate_actions w.path job

unfoldable pub validate_workflow : Workflow → Error
validate_workflow w =
    fail_if (not (same_permissions w.definition.permissions (expected_workflow_permissions w.path)))
      (unexpected_workflow_permissions w.path)
    then first_error (validate_job w) (jobs_of w)
    then reject_scorecard_dangerous_checkouts w

-- Whether a job calls a workflow of the repository.
unfoldable pub is_reusable_call : GithubJob → Bool
is_reusable_call job = elim (local_reusable_workflow_path job.uses) [
  | none ↦ false
  | some path ↦ true
]

unfoldable pub validate_job_flow :
    Library → Map Workflow → Workflow → List EffectiveRootEvent → Text × GithubJob → Error
validate_job_flow lib ws w events (id, job) =
    let authority = authority_for_job lib ws w job events in
    if is_reusable_call job
      && (authority.repository_or_secret_privilege || authority.persistent_runner)
    then some (privileged_reusable_call w.path id)
    else if not (job_has_privileged_pr_execution lib job)
    then none
    else if authority.default_branch_cache_write
    then some (executes_with_cache_write w.path id)
    else if authority.repository_or_secret_privilege
    then some (executes_with_privilege w.path id)
    else if authority.persistent_runner
    then some (executes_on_persistent_runner w.path id)
    else none

unfoldable pub validate_privileged_flow :
    Library → Map Workflow → Workflow → List EffectiveRootEvent → Error
validate_privileged_flow lib ws w events =
    first_error (validate_job_flow lib ws w events) (jobs_of w)

-- The second loop of `Validate`, with the events of every workflow.
unfoldable pub validate_flows : Library → Map Workflow → Error
validate_flows lib ws = elim (resolve_effective_root_events ws) [
  | none ↦ some out_of_rounds
  | some events ↦
      first_error (λ (path, w). validate_privileged_flow lib ws w (events_at path events)) ws
]

-- `Validate` after the workflows have been loaded, with the check of the topology as an argument.
unfoldable pub validate_loaded : Library → (Map Workflow → Error) → Map Workflow → Error
validate_loaded lib validate_topology ws =
    fail_if (length ws == 0) no_workflow_files
    then first_error (λ (path, w). validate_workflow w) ws
    then validate_flows lib ws
    then validate_topology ws

-- An entry of a directory, with its content if the file can be read.
pub record DirEntry : Type 0 where
  pub name : Text
  pub is_dir : Bool
  pub content : Option Text

-- What the YAML library makes of a file: the workflow, and whether it has jobs.
pub record Unmarshalled : Type 0 where
  pub definition : GithubWorkflow
  pub has_jobs : Bool

module _ (unmarshal : Text → Option Unmarshalled) where
  unfoldable pub parse_workflow : Text → Text → Result PolicyFault Workflow
  parse_workflow path content = elim (unmarshal content) [
    | none ↦ err (invalid_yaml path)
    | some parsed ↦
        if not parsed.has_jobs
        then err (needs_jobs path)
        else ok (record { path = path; definition = parsed.definition })
  ]

  unfoldable pub is_workflow_file : DirEntry → Bool
  is_workflow_file entry =
      not entry.is_dir
      && (text_eq (extension entry.name) (codes ".yml")
          || text_eq (extension entry.name) (codes ".yaml"))

  unfoldable pub load_entries : List DirEntry → Map Workflow → Result PolicyFault (Map Workflow)
  load_entries [] ws = ok ws
  load_entries (entry ∷ entries) ws = elim (is_workflow_file entry) [
    | false ↦ load_entries entries ws
    | true ↦ elim entry.content [
      | none ↦ err (unreadable entry.name)
      | some content ↦ elim (parse_workflow (codes ".github/workflows/" ++ entry.name) content) [
        | err fault ↦ err fault
        | ok w ↦ load_entries entries (insert w.path w ws)
      ]
    ]
  ]

  -- `LoadWorkflows`, from what the reading of the directory gives.
  unfoldable pub load_workflows : Option (List DirEntry) → Result PolicyFault (Map Workflow)
  load_workflows none = err unreadable_directory
  load_workflows (some entries) = load_entries entries []

  unfoldable pub validate_root : Library → (Map Workflow → Error) → Option (List DirEntry) → Error
  validate_root lib validate_topology dir = elim (load_workflows dir) [
    | err fault ↦ some fault
    | ok ws ↦ validate_loaded lib validate_topology ws
  ]

  -- `hasPrivilegedPRExecution`: the check of one file by itself.
  unfoldable pub has_privileged_pr_execution : Library → Text → Bool
  has_privileged_pr_execution lib content = elim (parse_workflow (codes "fixture.yml") content) [
    | err fault ↦ true
    | ok w ↦
        any
          (λ (id, job).
            let authority =
              authority_for_job lib ((w.path, w) ∷ []) w job
                (events_at w.path (direct_root_events w.path w)) in
            job_has_privileged_pr_execution lib job
            && (authority.protected_default_branch_source || authority.default_branch_cache_write
                || authority.repository_or_secret_privilege || authority.persistent_runner))
          (jobs_of w)
  ]
