-- ===== src/Policy/Events/Members.antt =====
-- What stands in the lists of events and of calls.
use eirctl.Prelude.{
  not_both, ⊎_elim, ◌≡◌, refl, sym, ap, ◌∙◌, subst, Bool, true, false, List, [], ◌∷◌, Option, none,
  some, Text, codes, Map, has, In, In-append, ◌↔◌, inl, inr, text_eq, text_eq_iff, Bool-cases,
  Option-cases, arith,
}
use eirctl.Github.{GithubJob, configured_names}
use eirctl.Policy.{Workflow, jobs_of}
use eirctl.Policy.Events.{
  EffectiveRootEvent, Entry, local_reusable_workflow_path, root_entries, direct_root_events,
  direct_entries, called_paths, calls_from, calls, events_at,
}

-- A declared event, as its entry says it.
abbrev pub IsRoot : Text → Text → List Text → Entry → Type 0
IsRoot key path names x =
    (name : Text) × In name names
    × (text_eq name (codes "workflow_call") ≡ false)
    × (x ≡ (key, record { name = name; source_path = path }))

pub In-root_entries :
    (key path : Text) (names : List Text) (x : Entry)
    → In x (root_entries key path names) ↔ IsRoot key path names x
unfolding root_entries
In-root_entries key path [] x = (λ i. absurd i, λ (n, i, _, _). absurd i)
In-root_entries key path (event ∷ names) x =
    let (go, back) = In-root_entries key path names x in
    elim (Bool-cases (text_eq event (codes "workflow_call"))) [
      | inl call ↦ (
        λ i. let (n, m, k, e) = go (rw (call, root_entries) at i) in (n, inr m, k, e),
        λ (n, m, k, e).
            rw (call, root_entries)
              (⊎_elim
                (λ same. absurd (
                  not_both (text_eq event (codes "workflow_call")) call
                    (subst (λ t. text_eq t (codes "workflow_call") ≡ false) same k)))
                (λ later. back (n, later, k, e)) m),
      )
      | inr other ↦ (
        λ i.
            ⊎_elim (λ same. (event, inl refl, other, same))
              (λ later. let (n, m, k, e) = go later in (n, inr m, k, e))
              (rw (other, root_entries) at i),
        λ (n, m, k, e).
            rw (other, root_entries)
              (⊎_elim
                (λ same. inl (e ∙ ap (λ t. (key, record { name = t; source_path = path })) same))
                (λ later. inr (back (n, later, k, e))) m),
      )
    ]

pub In-direct_entries :
    (ws : Map Workflow) (x : Entry)
    → In x (direct_entries ws) ↔ (
        (key : Text) × (w : Workflow) × In (key, w) ws
        × IsRoot key w.path (configured_names w.definition.on) x)
unfolding direct_entries direct_root_events
In-direct_entries [] x = (λ i. absurd i, λ (k, w, i, _). absurd i)
In-direct_entries ((path, w) ∷ ws) x =
    let (go, back) = In-direct_entries ws x in
    let (here, here') = In-root_entries path w.path (configured_names w.definition.on) x in
    let (apart, join) = In-append x (direct_root_events path w) (direct_entries ws) in
    (
      λ i.
          ⊎_elim (λ now. (path, w, inl refl, here now))
            (λ later. let (k, v, m, r) = go later in (k, v, inr m, r)) (apart i),
      λ (k, v, m, r). join (
          ⊎_elim
            (λ e.
              inl (
                here'
                  (subst (λ q. IsRoot q.0 q.1.path (configured_names q.1.definition.on) x) e r)))
            (λ later. inr (back (k, v, later, r))) m),
    )

abbrev pub IsCalled : Map Workflow → Map GithubJob → Text → Type 0
IsCalled ws jobs path =
    (id : Text) × (job : GithubJob) × In (id, job) jobs
    × (local_reusable_workflow_path job.uses ≡ some path)
    × (has path ws ≡ true)

pub In-called_paths :
    (ws : Map Workflow) (jobs : Map GithubJob) (path : Text)
    → In path (called_paths ws jobs) ↔ IsCalled ws jobs path
unfolding called_paths
In-called_paths ws [] path = (λ i. absurd i, λ (id, j, i, _, _). absurd i)
In-called_paths ws ((id, job) ∷ jobs) path =
    let (go, back) = In-called_paths ws jobs path in
    let skip : In path (called_paths ws jobs) → IsCalled ws ((id, job) ∷ jobs) path =
      λ i. let (id', j, m, e, h) = go i in (id', j, inr m, e, h) in
    elim (Option-cases (local_reusable_workflow_path job.uses)) [
      | inl none_called ↦ (
        λ i. skip (rw (none_called, called_paths) at i),
        λ (id', j, m, e, h).
            rw (none_called, called_paths)
              (⊎_elim
                (λ same.
                  absurd
                    (apart (ap (λ q. local_reusable_workflow_path q.1.uses) same) e none_called))
                (λ later. back (id', j, later, e, h)) m),
      )
      | inr (p, is) ↦ elim (Bool-cases (has p ws)) [
        | inl there ↦ (
          λ i.
              ⊎_elim
                (λ same. (
                  id,
                  job,
                  inl refl,
                  is ∙ ap some (sym same),
                  subst (λ q. has q ws ≡ true) (sym same) there,
                ))
                skip (rw (is, there, called_paths) at i),
          λ (id', j, m, e, h).
              rw (is, there, called_paths)
                (⊎_elim
                  (λ same. inl (named (ap (λ q. local_reusable_workflow_path q.1.uses) same) e is))
                  (λ later. inr (back (id', j, later, e, h))) m),
        )
        | inr lost ↦ (
          λ i. skip (rw (is, lost, called_paths) at i),
          λ (id', j, m, e, h).
              rw (is, lost, called_paths)
                (⊎_elim
                  (λ same. absurd (
                    split
                      (subst (λ q. has q ws ≡ true)
                        (named (ap (λ q. local_reusable_workflow_path q.1.uses) same) e is) h)
                      lost))
                  (λ later. back (id', j, later, e, h)) m),
        )
      ]
    ]
  where
    apart : {a b : Option Text} {t : Text} → a ≡ b → a ≡ some t → b ≡ none → ⊥
    apart q e n = cc

    named : {a b : Option Text} {t u : Text} → a ≡ b → a ≡ some t → b ≡ some u → t ≡ u
    named q e n = cc

    split : {b : Bool} → b ≡ true → b ≡ false → ⊥
    split h k = cc

pub In-calls_from :
    (caller : Text) (paths : List Text) (c d : Text)
    → In (c, d) (calls_from caller paths) ↔ ((c ≡ caller) × In d paths)
unfolding calls_from
In-calls_from caller [] c d = (λ i. absurd i, λ (_, i). absurd i)
In-calls_from caller (p ∷ paths) c d =
    let (go, back) = In-calls_from caller paths c d in
    (
      λ i.
          ⊎_elim (λ e. (ap (λ q. q.0) e, inl (ap (λ q. q.1) e)))
            (λ later. let (e, m) = go later in (e, inr m)) i,
      λ (e, m).
          ⊎_elim (λ h. inl (ap (λ q. (q, d)) e ∙ ap (λ q. (caller, q)) h))
            (λ later. inr (back (e, later))) m,
    )

pub In-calls :
    (ws rest : Map Workflow) (c d : Text)
    → In (c, d) (calls ws rest) ↔ ((w : Workflow) × In (c, w) rest × IsCalled ws (jobs_of w) d)
unfolding calls
In-calls ws [] c d = (λ i. absurd i, λ (w, i, _). absurd i)
In-calls ws ((path, w) ∷ rest) c d =
    let (go, back) = In-calls ws rest c d in
    let (from, from') = In-calls_from path (called_paths ws (jobs_of w)) c d in
    let (of, of') = In-called_paths ws (jobs_of w) d in
    let (apart, join) =
      In-append (c, d) (calls_from path (called_paths ws (jobs_of w))) (calls ws rest) in
    (
      λ i.
          ⊎_elim (λ now. let (e, m) = from now in (w, inl (ap (λ q. (q, w)) e), of m))
            (λ later. let (v, m, k) = go later in (v, inr m, k)) (apart i),
      λ (v, m, k). join (
          ⊎_elim
            (λ e. inl (from' (ap (λ q. q.0) e, of' (subst (λ q. IsCalled ws (jobs_of q.1) d) e k))))
            (λ later. inr (back (v, later, k))) m),
    )

pub In-events_at :
    (path : Text) (ev : EffectiveRootEvent) (es : List Entry)
    → In ev (events_at path es) ↔ In (path, ev) es
unfolding events_at
In-events_at path ev [] = (λ i. absurd i, λ i. absurd i)
In-events_at path ev ((p, ev') ∷ es) = ground (arith, text_eq_iff p path, In-events_at path ev es)
