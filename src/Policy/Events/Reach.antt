-- ===== src/Policy/Events/Reach.antt =====
-- Which events reach a workflow: the relation that the resolution computes.
use eirctl.Prelude.{
  ◌≡◌, refl, sym, subst, true, false, List, some, Text, codes, Map, has, In, ◌↔◌, text_eq,
}
use eirctl.Github.{GithubJob, configured_names}
use eirctl.Policy.{Workflow, jobs_of}
use eirctl.Policy.Events.{
  EffectiveRootEvent, Entry, local_reusable_workflow_path, direct_entries, calls,
  resolve_effective_root_events, rounds, events_at,
}
use eirctl.Policy.Events.Rounds.{settle_lem, settle_ends, IsClosed}
use eirctl.Policy.Events.Members.{In-direct_entries, In-calls, In-events_at}

-- The workflow at a path is started by an event: its own, or one that starts a workflow of which
-- a job calls it.
pub data StartedBy (ws : Map Workflow) : Text → EffectiveRootEvent → Type 0 where
  declared :
      (path : Text) (w : Workflow) (name : Text)
      → In (path, w) ws
      → In name (configured_names w.definition.on)
      → text_eq name (codes "workflow_call") ≡ false
      → StartedBy ws path (record { name = name; source_path = w.path })
  called :
      (caller path id : Text) (w : Workflow) (job : GithubJob) (event : EffectiveRootEvent)
      → In (caller, w) ws
      → In (id, job) (jobs_of w)
      → local_reusable_workflow_path job.uses ≡ some path
      → has path ws ≡ true
      → StartedBy ws caller event
      → StartedBy ws path event

declared-StartedBy :
    (ws : Map Workflow) (x : Entry) → In x (direct_entries ws) → StartedBy ws x.0 x.1
declared-StartedBy ws x i =
    let (key, w, at, (name, m, k, e)) = (In-direct_entries ws x).0 i in
    subst (λ y. StartedBy ws y.0 y.1) (sym e) (declared key w name at m k)

-- What a closed set with the declared events in it holds.
StartedBy-In :
    (ws : Map Workflow) (final : List Entry)
    → ((x : Entry) → In x (direct_entries ws) → In x final)
    → IsClosed (calls ws ws) final
    → {path : Text} {ev : EffectiveRootEvent} → StartedBy ws path ev
    → In (path, ev) final
StartedBy-In ws final old closed (declared path w name at m k) =
    old (path, record { name = name; source_path = w.path })
      ((In-direct_entries ws (path, record { name = name; source_path = w.path })).1
        (path, w, at, (name, m, k, refl)))
StartedBy-In ws final old closed (called caller path id w job ev at j e h s) =
    closed caller path ev ((In-calls ws ws caller path).1 (w, at, (id, job, j, e, h)))
      (StartedBy-In ws final old closed s)

-- The resolution ends, for any workflows, and the events it gives for a path are exactly those
-- that start the workflow there, directly or through the jobs that call it.
pub resolve_effective_root_events-StartedBy :
    (ws : Map Workflow)
    → (result : List Entry) × (resolve_effective_root_events ws ≡ some result)
      × ((path : Text) (ev : EffectiveRootEvent)
          → In ev (events_at path result) ↔ StartedBy ws path ev)
unfolding resolve_effective_root_events rounds
resolve_effective_root_events-StartedBy ws =
    let (final, ends) = settle_ends (calls ws ws) (direct_entries ws) in
    let carry : (c d : Text) (ev : EffectiveRootEvent)
        → In (c, d) (calls ws ws)
        → StartedBy ws c ev
        → StartedBy ws d ev =
      λ c d ev i s.
        let (w, at, (id, job, j, e, h)) = (In-calls ws ws c d).0 i in
        called c d id w job ev at j e h s in
    let (old, closed, kept) =
      settle_lem (λ x. StartedBy ws x.0 x.1) (calls ws ws) (rounds ws) (direct_entries ws) final
        carry (declared-StartedBy ws) ends in
    (
      final,
      ends,
      λ path ev.
          let (go, back) = In-events_at path ev final in
          (λ i. kept (path, ev) (go i), λ s. back (StartedBy-In ws final old closed s)),
    )
