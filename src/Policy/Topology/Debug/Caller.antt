-- ===== src/Policy/Topology/Debug/Caller.antt =====
-- Who starts the builder of debug releases.
use eirctl.Prelude.{
  true_of_and, ◌≡◌, refl, sym, ap, ◌∙◌, Bool, true, false, not, ◌&&◌, List, [], ◌∷◌, none, some,
  Option-cases, codes, Map, lookup, text_eq, text_eq_iff, In, ◌↔◌, ◌⊎◌, inl, inr, ⊎_elim, arith,
  Result, ok, err,
}
use eirctl.Github.{GithubTriggerEvents}
use eirctl.Policy.{Library, Workflow, PolicyFault, topology, jobs_of}
use eirctl.Policy.Checks.{fail_if-eq-none_iff}
use eirctl.Policy.Events.{EffectiveRootEvent, events_at}
use eirctl.Policy.Events.Reach.{StartedBy, resolve_effective_root_events-StartedBy}
use eirctl.Policy.Topology.{
  debug_request_workflow_path, debug_builder_workflow_path, required_workflow, is_debug_caller,
  has_only_effective_debug_caller,
}
use eirctl.Policy.Topology.Debug.Builder.{
  is_debug_builder_trigger, is_debug_builder_job, validate_debug_builder_topology,
}

abbrev pub debug_request : EffectiveRootEvent
debug_request = record { name = codes "issue_comment"; source_path = debug_request_workflow_path }

is_debug_caller_iff :
    (events : List EffectiveRootEvent)
    → is_debug_caller events ≡ true
    → (ev : EffectiveRootEvent) → In ev events ↔ (ev ≡ debug_request)
unfolding is_debug_caller
is_debug_caller_iff [] e ev = absurd (cc)
is_debug_caller_iff (event ∷ []) e ev =
    let (name, path) =
      true_of_and (text_eq event.name (codes "issue_comment"))
        (text_eq event.source_path debug_request_workflow_path) e in
    let name' = (text_eq_iff event.name (codes "issue_comment")).0 name in
    let path' = (text_eq_iff event.source_path debug_request_workflow_path).0 path in
    let same : event ≡ debug_request =
      ap (λ n. record { name = n; source_path = event.source_path }) name'
      ∙ ap (λ s. record { name = codes "issue_comment"; source_path = s }) path' in
    (λ i. ⊎_elim (λ q. q ∙ same) (λ none_left. absurd none_left) i, λ q. inl (q ∙ sym same))
is_debug_caller_iff (event ∷ other ∷ events) e ev = absurd (cc)

caller_of :
    (ws : Map Workflow) (build : Workflow) (events : GithubTriggerEvents)
    → is_debug_builder_trigger ws build events ≡ true
    → has_only_effective_debug_caller ws ≡ true
unfolding is_debug_builder_trigger
caller_of ws build events e = ground arith

-- What the check of the builder has seen.
builder_seen :
    (lib : Library) (ws : Map Workflow)
    → validate_debug_builder_topology lib ws ≡ none
    → has_only_effective_debug_caller ws ≡ true
unfolding validate_debug_builder_topology
builder_seen lib ws e = elim (result_cases (required_workflow ws debug_builder_workflow_path)) [
  | inl (fault, missing) ↦ absurd (clash (rw (missing, validate_debug_builder_topology) at e))
  | inr (build, found) ↦ elim (Option-cases build.definition.on) [
    | inl never ↦ absurd (clash (rw (found, never, validate_debug_builder_topology) at e))
    | inr (events, on) ↦ elim (Option-cases (lookup (codes "build") (jobs_of build))) [
      | inl lost ↦ absurd (clash (rw (found, on, lost, validate_debug_builder_topology) at e))
      | inr (job, there) ↦
          let passed =
            (fail_if-eq-none_iff
                (not (is_debug_builder_trigger ws build events && is_debug_builder_job lib job))
                (topology (codes "debug build: builder"))).0
              (rw (found, on, there, validate_debug_builder_topology) at e) in
          caller_of ws build events
            (both (is_debug_builder_trigger ws build events) (is_debug_builder_job lib job) passed)
    ]
  ]
]
  where
    result_cases :
        (r : Result PolicyFault Workflow)
        → ((f : PolicyFault) × (r ≡ err f)) ⊎ ((w : Workflow) × (r ≡ ok w))
    result_cases (err f) = inl (f, refl)
    result_cases (ok w) = inr (w, refl)

    clash : {f : PolicyFault} → some f ≡ none → ⊥
    clash h = cc

    both : (a b : Bool) → not (a && b) ≡ false → a ≡ true
    both a b h = ground arith

-- If the check of the builder passes, the builder is started by a comment on a pull request at the
-- request workflow, and by no other event, whichever workflows call each other.
pub validate_debug_builder_topology-caller :
    (lib : Library) (ws : Map Workflow)
    → validate_debug_builder_topology lib ws ≡ none
    → (ev : EffectiveRootEvent) → StartedBy ws debug_builder_workflow_path ev ↔ (ev ≡ debug_request)
unfolding has_only_effective_debug_caller
validate_debug_builder_topology-caller lib ws passed ev =
    let seen = builder_seen lib ws passed in
    let (result, ends, started) = resolve_effective_root_events-StartedBy ws in
    let (go, back) =
      is_debug_caller_iff (events_at debug_builder_workflow_path result)
        (rw (ends, has_only_effective_debug_caller) at seen) ev in
    let (into, from) = started debug_builder_workflow_path ev in
    (λ s. go (from s), λ e. into (back e))
