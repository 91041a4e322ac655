-- ===== src/Schedule/Runs.antt =====
-- Every event keeps the invariant, so every run does.
use eirctl.Prelude.{
  ◌≡◌, refl, ◌≢◌, Bool, true, List, [], ◌∷◌, none, some, Text, text_eq, text_eq_iff, In, ◌⊎◌, inl,
  inr, arith, Bool-cases, Option-cases, lookup, subst, ap, ◌∙◌,
}
use mathlib.Core.Option.{some-injective}
use eirctl.Stage.{Status, Stage}
use eirctl.Graph.{ExecutionGraph, parents_of, root_node_name}
use eirctl.Schedule.{
  Phase, idle, executing, failed, stored, Place, head, visiting, checking, behind, crashed, World,
  Condition, Event, round, sleep, visit, check, succeed, fail, store, recover, cancel, visit_stage,
  check_parent, end_check, step, run, start, at_phase,
}
use eirctl.Schedule.Invariant.{
  Settled, IsStarted, IsNamed, Checked, IsSafe, Change, changed, changed-IsSafe,
}
use eirctl.Schedule.Ready.{IsReady}
use eirctl.Schedule.Steps.{
  start_round-IsSafe, visit_stage-IsSafe, check_parent-IsSafe, end_check-IsSafe,
}
use eirctl.Schedule.Safety.{
  changed-Checked, succeed-Change, fail-Change, recover-Change, place-IsSafe, store-IsSafe,
}

module _ (g : ExecutionGraph) where
  -- Where the loop has to be for its events, and what they then do.
  visit-eq :
      (c : Condition) (order : List Text) (w w' : World)
      → step g (visit c order) w ≡ some w'
      → (n : Text) × (todo : List Text) × (s : Stage) × (lookup n g.nodes ≡ some s)
        × (visit_stage g n s c order todo w ≡ some w')
  unfolding step
  visit-eq c order w w' e = go w.place e
    where
      go :
          (pl : Place)
          → elim pl [
            | visiting (n ∷ todo) ↦ elim (lookup n g.nodes) [
              | none ↦ none
              | some s ↦ visit_stage g n s c order todo w
            ]
            | _ ↦ none
          ]
            ≡ some w'
          → (n : Text) × (todo : List Text) × (s : Stage) × (lookup n g.nodes ≡ some s)
            × (visit_stage g n s c order todo w ≡ some w')
      go (visiting (n ∷ todo)) f = elim (Option-cases (lookup n g.nodes)) [
        | inl missing ↦ absurd (ground arith)
        | inr (s, found) ↦ (n, todo, s, found, ground arith)
      ]
      go (visiting []) f = absurd (cc)
      go head f = absurd (cc)
      go (checking n ps ready todo) f = absurd (cc)
      go behind f = absurd (cc)
      go crashed f = absurd (cc)

  check-eq :
      (w w' : World)
      → step g check w ≡ some w'
      → ((n : Text) × (ready : Bool) × (todo : List Text) × (w.place ≡ checking n [] ready todo)
          × (end_check n ready todo w ≡ w'))
        ⊎ ((n p : Text) × (ps : List Text) × (ready : Bool) × (todo : List Text) × (w.place
              ≡ checking n (p ∷ ps) ready todo)
            × (check_parent g n p ps ready todo w ≡ w'))
  unfolding step
  check-eq w w' e = go w.place refl
    where
      go :
          (pl : Place)
          → w.place ≡ pl
          → ((n : Text) × (ready : Bool) × (todo : List Text) × (w.place ≡ checking n [] ready todo)
              × (end_check n ready todo w ≡ w'))
            ⊎ ((n p : Text) × (ps : List Text) × (ready : Bool) × (todo : List Text) × (w.place
                  ≡ checking n (p ∷ ps) ready todo)
                × (check_parent g n p ps ready todo w ≡ w'))
      go (checking n [] ready todo) at = inl (n, ready, todo, at, ground arith)
      go (checking n (p ∷ ps) ready todo) at = inr (n, p, ps, ready, todo, at, ground arith)
      go (visiting todo) at = absurd (ground arith)
      go head at = absurd (ground arith)
      go behind at = absurd (ground arith)
      go crashed at = absurd (ground arith)

  at_phase-eq :
      (ph : Phase) (n : Text) (w v v' : World)
      → at_phase ph n w v ≡ some v'
      → (w.phase n ≡ ph) × (v ≡ v')
  at_phase-eq executing n w v v' e = ground arith
  at_phase-eq failed n w v v' e = ground arith
  at_phase-eq stored n w v v' e = ground arith
  at_phase-eq idle n w v v' e = absurd (cc)

  -- A goroutine moves its own stage.
  goroutine-IsSafe :
      (w : World) (n : Text) (s : Status) (ph : Phase)
      → IsSafe g w
      → (w.phase n ≢ idle)
      → Change g w n s ph
      → IsSafe g (changed g w n s ph)
  goroutine-IsSafe w n s ph h busy c =
      changed-IsSafe g w n s ph w.place w.errors w.cancelled h c
        (changed-Checked g w n s ph w.place busy c h.checked)

  step-IsSafe :
      (ev : Event) (w w' : World) → IsNamed g → IsSafe g w → step g ev w ≡ some w' → IsSafe g w'
  unfolding step
  step-IsSafe (round order) w w' named h e = start_round-IsSafe g order w w' h (ground arith)
  step-IsSafe sleep w w' named h e =
      let moved : record w { place = head } ≡ w' = ground arith in
      subst (IsSafe g) moved (place-IsSafe g w head w.cancelled h tt)
  step-IsSafe (visit c order) w w' named h e =
      let (n, todo, s, found, e1) = visit-eq c order w w' e in
      visit_stage-IsSafe g n s c order todo w w' named found h e1
  step-IsSafe check w w' named h e = elim (check-eq w w' e) [
    | inl (n, ready, todo, at, e1) ↦
        subst (IsSafe g) e1 (end_check-IsSafe g n ready todo w (rw at at h.checked) h)
    | inr (n, p, ps, ready, todo, at, e1) ↦
        subst (IsSafe g) e1 (check_parent-IsSafe g n p ps ready todo w (rw at at h.checked) h)
  ]
  step-IsSafe (succeed n) w w' named h e =
      let (at, moved) = at_phase-eq executing n w _ w' e in
      subst (IsSafe g) moved
        (goroutine-IsSafe w n Status.done idle h (λ f. cc) (succeed-Change g w n h at))
  step-IsSafe (fail n) w w' named h e =
      let (at, moved) = at_phase-eq executing n w _ w' e in
      subst (IsSafe g) moved
        (goroutine-IsSafe w n Status.error failed h (λ f. cc) (fail-Change g w n h at))
  step-IsSafe (store n) w w' named h e =
      let (at, moved) = at_phase-eq failed n w _ w' e in
      subst (IsSafe g) moved (store-IsSafe g w n h at)
  step-IsSafe (recover n) w w' named h e =
      let (at, moved) = at_phase-eq stored n w _ w' e in
      subst (IsSafe g) moved
        (goroutine-IsSafe w n Status.done idle h (λ f. cc) (recover-Change g w n h at))
  step-IsSafe cancel w w' named h e =
      let moved : record w { cancelled = true } ≡ w' = cc in
      subst (IsSafe g) moved (place-IsSafe g w w.place true h h.checked)

  run-IsSafe :
      (es : List Event) (w w' : World) → IsNamed g → IsSafe g w → run g es w ≡ some w' → IsSafe g w'
  unfolding run
  run-IsSafe [] w w' named h e = subst (IsSafe g) (some-injective _ _ e) h
  run-IsSafe (ev ∷ es) w w' named h e = elim (Option-cases (step g ev w)) [
    | inl stuck ↦ absurd (ground arith)
    | inr (v, e1) ↦ run-IsSafe es v w' named (step-IsSafe ev w v named h e1) (ground arith)
  ]

start_phase : (g : ExecutionGraph) (n : Text) → (start g).phase n ≡ idle
unfolding start
start_phase g n = refl

start-Checked : (g : ExecutionGraph) → Checked g (start g) (start g).place
unfolding start
start-Checked g = tt

start-IsSafe : (g : ExecutionGraph) → IsReady g → IsSafe g (start g)
start-IsSafe g h =
    let quiet = start_phase g in
    record {
      executes = λ n f. ground (arith, quiet n);
      fails_with = λ n f. ground (arith, quiet n);
      stores = λ n f. ground (arith, quiet n);
      rooted = (h.root_done, quiet root_node_name);
      settled = λ n p started edge. elim (Bool-cases (text_eq n root_node_name)) [
        | inl root ↦ absurd (
            subst (In p) (ap (parents_of g) ((text_eq_iff n root_node_name).0 root) ∙ h.root_first)
              edge)
        | inr other ↦
            let st = h.waits n (λ e. ground (arith, text_eq_iff n root_node_name)) in
            ground (arith, quiet n)
      ];
      checked = start-Checked g;
    }

-- In every run, under every interleaving, a stage that was started by the scheduler has only
-- parents that are done, skipped, or failed where that is allowed.
pub run_dependencies :
    (g : ExecutionGraph) (es : List Event) (w : World) (n p : Text)
    → IsReady g
    → run g es (start g) ≡ some w
    → IsStarted w n
    → In p (parents_of g n)
    → Settled g w.status p
run_dependencies g es w n p ready e started edge =
    (run-IsSafe g es (start g) w ready.named (start-IsSafe g ready) e).settled n p started edge
