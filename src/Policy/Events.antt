-- ===== src/Policy/Events.antt =====
-- Which events start a workflow, directly or through callers, and what they bring with them.
-- The map from paths to sets of events is the list of its pairs.
pub mod Grow
pub mod Rounds
pub mod Members
pub mod Reach
use eirctl.Prelude.{
  ℕ, zero, suc, Bool, true, false, not, ◌&&◌, ◌||◌, List, [], ◌∷◌, ◌++◌, Option, none, some, Text,
  codes, Map, lookup, has, keys, elem, text_eq, has_prefix, contains, if◌then◌else◌, length, map,
  ◌*◌, ◌==◌,
}
use eirctl.Strings.{trim_prefix}
use eirctl.Github.{GithubJob, GithubPushEvent, GithubTriggerEvents, configured_names}
use eirctl.Policy.{Library, Workflow, jobs_of}

pub record EffectiveRootEvent : Type 0 where
  pub name : Text
  pub source_path : Text

unfoldable pub same_event : EffectiveRootEvent → EffectiveRootEvent → Bool
same_event a b = text_eq a.name b.name && text_eq a.source_path b.source_path

-- A workflow's path with one of its events.
abbrev pub Entry : Type 0
Entry = Text × EffectiveRootEvent

unfoldable pub has_entry : Entry → List Entry → Bool
has_entry e [] = false
has_entry (path, event) ((p, ev) ∷ entries) =
    (text_eq p path && same_event ev event) || has_entry (path, event) entries

-- The path that a job calls, if that is a workflow of the repository itself.
unfoldable pub local_reusable_workflow_path : Text → Option Text
local_reusable_workflow_path uses =
    if not (has_prefix uses (codes "./.github/workflows/")) || contains uses (codes "@")
    then none
    else some (trim_prefix uses (codes "./"))

-- The events that a workflow declares, but for the call by another; `key` is where it is held.
unfoldable pub root_entries : (key path : Text) → List Text → List Entry
root_entries key path [] = []
root_entries key path (event ∷ names) =
    let rest = root_entries key path names in
    if text_eq event (codes "workflow_call")
    then rest
    else (key, record { name = event; source_path = path }) ∷ rest

unfoldable pub direct_root_events : Text → Workflow → List Entry
direct_root_events key w = root_entries key w.path (configured_names w.definition.on)

unfoldable pub direct_entries : Map Workflow → List Entry
direct_entries [] = []
direct_entries ((path, w) ∷ workflows) = direct_root_events path w ++ direct_entries workflows

-- The paths that the jobs call, as far as they are workflows.
unfoldable pub called_paths : Map Workflow → Map GithubJob → List Text
called_paths workflows [] = []
called_paths workflows ((id, job) ∷ jobs) =
    let rest = called_paths workflows jobs in
    elim (local_reusable_workflow_path job.uses) [
      | none ↦ rest
      | some called ↦ if has called workflows then called ∷ rest else rest
    ]

-- Every pair of a caller and a workflow that it calls, in the order of the loops.
unfoldable pub calls_from : Text → List Text → List (Text × Text)
calls_from caller [] = []
calls_from caller (called ∷ paths) = (caller, called) ∷ calls_from caller paths

unfoldable pub calls : Map Workflow → Map Workflow → List (Text × Text)
calls workflows [] = []
calls workflows ((path, w) ∷ rest) =
    calls_from path (called_paths workflows (jobs_of w)) ++ calls workflows rest

-- `propagateRootEvents`: the events of the caller, which are read from `source`, are given to the
-- called workflow, with whether one of them was new.
unfoldable pub propagate_root_events :
    (caller called : Text) → (source events : List Entry) → List Entry × Bool
propagate_root_events caller called [] events = (events, false)
propagate_root_events caller called ((path, event) ∷ source) events =
    let skip = propagate_root_events caller called source events in
    let grown = propagate_root_events caller called source ((called, event) ∷ events) in
    if not (text_eq path caller)
    then skip
    else if has_entry (called, event) events
    then skip
    else (grown.0, true)

-- One round over all calls.
unfoldable pub propagate_reusable_events : List (Text × Text) → List Entry → List Entry × Bool
propagate_reusable_events [] events = (events, false)
propagate_reusable_events ((caller, called) ∷ rest) events =
    let (grown, changed) = propagate_root_events caller called events events in
    let (final, changed') = propagate_reusable_events rest grown in (final, changed' || changed)

-- The rounds go on as long as something changes; `none` means that the fuel ran out.
unfoldable pub settle : ℕ → List (Text × Text) → List Entry → Option (List Entry)
settle zero edges events = none
settle (suc fuel) edges events =
    let round = propagate_reusable_events edges events in
    elim round.1 [ true ↦ settle fuel edges round.0 | false ↦ some round.0 ]

-- Each workflow may get each of the events once.
unfoldable pub rounds : Map Workflow → ℕ
rounds workflows = suc (length (calls workflows workflows) * length (direct_entries workflows))

unfoldable pub resolve_effective_root_events : Map Workflow → Option (List Entry)
resolve_effective_root_events workflows =
    settle (rounds workflows) (calls workflows workflows) (direct_entries workflows)

-- `events[path]`
unfoldable pub events_at : Text → List Entry → List EffectiveRootEvent
events_at path [] = []
events_at path ((p, event) ∷ entries) =
    let rest = events_at path entries in if text_eq p path then event ∷ rest else rest
