-- ===== src/Schedule/Steps.antt =====
-- The events of the loop keep the invariant.
use eirctl.Prelude.{
  ◌≡◌, refl, sym, ◌≢◌, Bool, true, false, List, [], ◌∷◌, some, Text, ◌⊎◌, inl, inr, arith, lookup,
  ⊎_elim, subst, text_eq_refl,
}
use eirctl.Stage.{Status, Stage}
use eirctl.Graph.{ExecutionGraph, parents_of}
use eirctl.Schedule.{
  executing, visiting, checking, behind, crashed, World, Condition, update, is_order, start_round,
  start_check, visit_stage, check_parent, end_check,
}
use eirctl.Schedule.Invariant.{Settled, IsNamed, Checked, IsSafe, changed-IsSafe}
use eirctl.Schedule.Safety.{
  idle_of_waiting, not_root_of_waiting, idle-Change, idle-IsSafe, place-IsSafe, In-order,
}

module _ (g : ExecutionGraph) where
  -- How a visit can end.
  visit_stage-eq :
      (n : Text) (s : Stage) (c : Condition) (order todo : List Text) (w w' : World)
      → visit_stage g n s c order todo w ≡ some w'
      → (record w { place = visiting todo } ≡ w')
        ⊎ (w.status n ≡ Status.waiting)
          × (record w {
            status = update n Status.error w.status;
            cancelled = true;
            place = visiting todo;
          }
              ≡ w')
        ⊎ (w.status n ≡ Status.waiting)
          × (record w { status = update n Status.skipped w.status; place = visiting todo } ≡ w')
        ⊎ (w.status n ≡ Status.waiting)
          × (is_order order (parents_of g s.name) ≡ true)
          × (record w { place = checking n order true todo } ≡ w')
  unfolding visit_stage start_check
  visit_stage-eq n s c order todo w w' e = ground arith

  start_round-eq :
      (order : List Text) (w w' : World)
      → start_round g order w ≡ some w'
      → (record w { place = behind } ≡ w') ⊎ (record w { place = visiting order } ≡ w')
  unfolding start_round
  start_round-eq order w w' e = ground arith

  check_parent-eq :
      (n p : Text) (ps : List Text) (ready : Bool) (todo : List Text) (w : World)
      → (record w { place = crashed } ≡ check_parent g n p ps ready todo w)
        ⊎ (Settled g w.status p
            × (record w { place = checking n ps ready todo } ≡ check_parent g n p ps ready todo w))
        ⊎ (record w { place = checking n ps false todo } ≡ check_parent g n p ps ready todo w)
        ⊎ (record w { status = update n Status.canceled w.status; place = checking n ps false todo }
            ≡ check_parent g n p ps ready todo w)
  unfolding check_parent
  check_parent-eq n p ps ready todo w = ground arith

  pub start_round-IsSafe :
      (order : List Text) (w w' : World)
      → IsSafe g w
      → start_round g order w ≡ some w'
      → IsSafe g w'
  start_round-IsSafe order w w' h e = elim (start_round-eq order w w' e) [
    | inl over ↦ subst (IsSafe g) over (place-IsSafe g w behind w.cancelled h tt)
    | inr on ↦ subst (IsSafe g) on (place-IsSafe g w (visiting order) w.cancelled h tt)
  ]

  pub visit_stage-IsSafe :
      (n : Text) (s : Stage) (c : Condition) (order todo : List Text) (w w' : World)
      → IsNamed g
      → lookup n g.nodes ≡ some s
      → IsSafe g w
      → visit_stage g n s c order todo w ≡ some w'
      → IsSafe g w'
  visit_stage-IsSafe n s c order todo w w' named found h e =
      elim (visit_stage-eq n s c order todo w w' e) [
        | inl passed ↦ subst (IsSafe g) passed (place-IsSafe g w (visiting todo) w.cancelled h tt)
        | inr (inl (waits, e1)) ↦ subst (IsSafe g) e1 (ends Status.error true waits (cc) (cc))
        | inr (inr (inl (waits, e1))) ↦
            subst (IsSafe g) e1 (ends Status.skipped w.cancelled waits (cc) (cc))
        | inr (inr (inr (waits, covered, e1))) ↦
            let other = not_root_of_waiting g w n h waits in
            subst (IsSafe g) e1 (
              place-IsSafe g w (checking n order true todo) w.cancelled h (
                inl waits,
                idle_of_waiting g w n h waits,
                other,
                λ _. (
                  waits,
                  λ p edge. inr (
                      In-order order (parents_of g s.name) p covered
                        (rw (named n s found other) edge)),
                ),
              ))
      ]
    where
      ends :
          (st : Status) (cancelled : Bool)
          → w.status n ≡ Status.waiting
          → (st ≢ Status.running)
          → (st ≢ Status.done)
          → IsSafe g (record w {
            status = update n st w.status;
            place = visiting todo;
            cancelled = cancelled;
          })
      ends st cancelled waits not_running not_done =
          idle-IsSafe g w n st (visiting todo) cancelled (idle_of_waiting g w n h waits) h
            (idle-Change g w n st (inl waits) (not_root_of_waiting g w n h waits) not_running
              not_done)
            tt

  pub check_parent-IsSafe :
      (n p : Text) (ps : List Text) (ready : Bool) (todo : List Text) (w : World)
      → Checked g w (checking n (p ∷ ps) ready todo)
      → IsSafe g w
      → IsSafe g (check_parent g n p ps ready todo w)
  check_parent-IsSafe n p ps ready todo w (open_, free, other, known) h =
      elim (check_parent-eq n p ps ready todo w) [
        | inl e ↦ subst (IsSafe g) e (place-IsSafe g w crashed w.cancelled h tt)
        | inr (inl (fine, e)) ↦ subst (IsSafe g) e (
            place-IsSafe g w (checking n ps ready todo) w.cancelled h (
              open_,
              free,
              other,
              λ r. (
                (known r).0,
                λ q edge.
                    ⊎_elim inl
                      (λ m. ⊎_elim (λ same. inl (subst (Settled g w.status) (sym same) fine)) inr m)
                      ((known r).1 q edge),
              ),
            ))
        | inr (inr (inl e)) ↦ subst (IsSafe g) e (
            place-IsSafe g w (checking n ps false todo) w.cancelled h
              (open_, free, other, λ r. absurd (cc)))
        | inr (inr (inr e)) ↦ subst (IsSafe g) e (
            idle-IsSafe g w n Status.canceled (checking n ps false todo) w.cancelled free h
              (idle-Change g w n Status.canceled open_ other (cc) (cc))
              (inr (ground (arith, text_eq_refl n)), free, other, λ r. absurd (cc)))
      ]

  pub end_check-IsSafe :
      (n : Text) (ready : Bool) (todo : List Text) (w : World)
      → Checked g w (checking n [] ready todo)
      → IsSafe g w
      → IsSafe g (end_check n ready todo w)
  unfolding end_check
  end_check-IsSafe n false todo w k h = place-IsSafe g w (visiting todo) w.cancelled h tt
  end_check-IsSafe n true todo w (open_, free, other, known) h =
      changed-IsSafe g w n Status.running executing (visiting todo) w.errors w.cancelled h
        (record {
          stable = inl (λ f. ground (arith, (known refl).0));
          executes = λ f. refl;
          fails_with = λ f. absurd (cc);
          stores = λ f. absurd (cc);
          not_root = other;
          parents = λ p _ edge. ⊎_elim (λ old. old) absurd ((known refl).1 p edge);
        })
        tt
