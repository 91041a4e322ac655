-- ===== src/Schedule/Safety.antt =====
-- No stage is started before its parents have settled, whatever the interleaving.
use eirctl.Prelude.{
  ◌≡◌, refl, sym, ◌≢◌, Bool, true, false, List, [], ◌∷◌, ◌++◌, Text, text_eq, text_eq_iff, In, ◌⊎◌,
  inl, inr, arith, Bool-cases, elem_iff, if◌then◌else◌, ⊎_elim, subst, false_of_iff, text_eq_refl,
}
use eirctl.Stage.{Status}
use eirctl.Graph.{ExecutionGraph, root_node_name}
use eirctl.Schedule.{
  Phase, idle, executing, failed, stored, Place, head, visiting, checking, behind, crashed, World,
  update, covers, is_order, allows,
}
use eirctl.Schedule.Invariant.{
  Checked, IsSafe, Settled-update, Change, changed, changed-IsSafe, update_same,
}

module _ (g : ExecutionGraph) where
  -- The stage that is being checked has no goroutine, so a goroutine's step is another stage's.
  pub changed-Checked :
      (w : World) (m : Text) (s : Status) (ph : Phase) (place : Place)
      → w.phase m ≢ idle
      → Change g w m s ph
      → Checked g w place
      → Checked g (changed g w m s ph) place
  changed-Checked w m s ph (checking n ps ready todo) busy c (open_, free, other, known) =
      let apart : text_eq m n ≡ false =
        false_of_iff (text_eq m n) (text_eq_iff m n) (λ same. busy (rw same free)) in
      (
        rw apart open_,
        rw apart free,
        other,
        λ r. (
          rw apart (known r).0,
          λ p edge.
              ⊎_elim (λ old. inl (Settled-update g w.status m p s c.stable old)) inr
                ((known r).1 p edge),
        ),
      )
  changed-Checked w m s ph head busy c k = tt
  changed-Checked w m s ph (visiting todo) busy c k = tt
  changed-Checked w m s ph behind busy c k = tt
  changed-Checked w m s ph crashed busy c k = tt

  pub succeed-Change :
      (w : World) (m : Text) → IsSafe g w → w.phase m ≡ executing → Change g w m Status.done idle
  succeed-Change w m h e = record {
    stable = inr (ground (arith, text_eq_refl m));
    executes = λ f. absurd (cc);
    fails_with = λ f. absurd (cc);
    stores = λ f. absurd (cc);
    not_root = λ same. let free : w.phase m ≡ idle = rw same h.rooted.1 in cc;
    parents = λ p _ edge. h.settled m p (inl (h.executes m e)) edge;
  }

  pub fail-Change :
      (w : World) (m : Text) → IsSafe g w → w.phase m ≡ executing → Change g w m Status.error failed
  fail-Change w m h e = record {
    stable = inl (ground (arith, h.executes m e));
    executes = λ f. absurd (cc);
    fails_with = λ f. refl;
    stores = λ f. absurd (cc);
    not_root = λ same. let free : w.phase m ≡ idle = rw same h.rooted.1 in cc;
    parents = λ p _ edge. h.settled m p (inl (h.executes m e)) edge;
  }

  pub recover-Change :
      (w : World) (m : Text) → IsSafe g w → w.phase m ≡ stored → Change g w m Status.done idle
  recover-Change w m h e = record {
    stable = inr (ground (arith, text_eq_refl m));
    executes = λ f. absurd (cc);
    fails_with = λ f. absurd (cc);
    stores = λ f. absurd (cc);
    not_root = λ same. let free : w.phase m ≡ idle = rw same h.rooted.1 in cc;
    parents = λ p _ edge. h.settled m p (inr (inr (inr e))) edge;
  }

  -- A waiting stage has no goroutine.
  pub idle_of_waiting :
      (w : World) (m : Text) → IsSafe g w → w.status m ≡ Status.waiting → w.phase m ≡ idle
  idle_of_waiting w m h e = ground (arith, h.executes m, h.fails_with m, h.stores m)

  pub not_root_of_waiting :
      (w : World) (m : Text) → IsSafe g w → w.status m ≡ Status.waiting → m ≢ root_node_name
  not_root_of_waiting w m h e same = let d : w.status m ≡ Status.done = rw same h.rooted.0 in cc

  store-Change :
      (w : World) (m : Text)
      → IsSafe g w
      → w.phase m ≡ failed
      → Change g w m (w.status m) (if allows g m then stored else idle)
  store-Change w m h e = record {
    stable = elim (Bool-cases (allows g m)) [
      | inl may ↦ inr (inr (inr (ground (arith, text_eq_refl m, h.fails_with m e), may)))
      | inr must ↦ inl (ground (arith, h.fails_with m e))
    ];
    executes = λ f. ground arith;
    fails_with = λ f. ground arith;
    stores = λ f. ground (arith, h.fails_with m e);
    not_root = λ same. let free : w.phase m ≡ idle = rw same h.rooted.1 in cc;
    parents = λ p _ edge. h.settled m p (inr (inr (inl e))) edge;
  }

  -- The loop's change of a stage that waits or is canceled, to a status that is no start.
  pub idle-Change :
      (w : World) (m : Text) (s : Status)
      → (w.status m ≡ Status.waiting) ⊎ (w.status m ≡ Status.canceled)
      → (m ≢ root_node_name)
      → (s ≢ Status.running)
      → (s ≢ Status.done)
      → Change g w m s idle
  idle-Change w m s open_ other not_running not_done = record {
    stable = inl (λ f. ground arith);
    executes = λ f. absurd (cc);
    fails_with = λ f. absurd (cc);
    stores = λ f. absurd (cc);
    not_root = other;
    parents = λ p started _. ground arith;
  }

  -- The same invariant for a world of which only the status has changed.
  pub idle-IsSafe :
      (w : World) (m : Text) (s : Status) (place : Place) (cancelled : Bool)
      → w.phase m ≡ idle
      → IsSafe g w
      → Change g w m s idle
      → Checked g (record w { status = update m s w.status }) place
      → IsSafe g (record w { status = update m s w.status; place = place; cancelled = cancelled })
  idle-IsSafe w m s place cancelled free h c k =
      let same = update_same m idle w.phase free in
      subst
        (λ ph. IsSafe g (record w {
          status = update m s w.status;
          phase = ph;
          place = place;
          cancelled = cancelled;
        }))
        same
        (changed-IsSafe g w m s idle place w.errors cancelled h c (
          subst (λ ph. Checked g (record w { status = update m s w.status; phase = ph }) place)
            (sym same) k))

  -- Moving on changes nothing but the place.
  pub place-IsSafe :
      (w : World) (place : Place) (cancelled : Bool)
      → IsSafe g w
      → Checked g w place
      → IsSafe g (record w { place = place; cancelled = cancelled })
  place-IsSafe w place cancelled h k = record {
    executes = h.executes;
    fails_with = h.fails_with;
    stores = h.stores;
    rooted = h.rooted;
    settled = h.settled;
    checked = k;
  }

  pub store-IsSafe :
      (w : World) (m : Text)
      → IsSafe g w
      → w.phase m ≡ failed
      → IsSafe g (record w {
        errors = w.errors ++ m ∷ [];
        phase = update m (if allows g m then stored else idle) w.phase;
      })
  store-IsSafe w m h e =
      let ph : Phase = if allows g m then stored else idle in
      let same = update_same m (w.status m) w.status refl in
      let c = store-Change w m h e in
      subst
        (λ st.
          IsSafe g
            (record w { status = st; errors = w.errors ++ m ∷ []; phase = update m ph w.phase }))
        same
        (changed-IsSafe g w m (w.status m) ph w.place (w.errors ++ m ∷ []) w.cancelled h c
          (changed-Checked w m (w.status m) ph w.place (λ f. cc) c h.checked))

-- The order in which the parents are read holds all of them.
In-covers : (xs ys : List Text) (p : Text) → covers xs ys ≡ true → In p xs → In p ys
unfolding covers
In-covers [] ys p e m = absurd m
In-covers (x ∷ xs) ys p e (inl same) = rw same ((elem_iff x ys).0 (ground arith))
In-covers (x ∷ xs) ys p e (inr later) = In-covers xs ys p (ground arith) later

pub In-order : (order xs : List Text) (p : Text) → is_order order xs ≡ true → In p xs → In p order
unfolding is_order
In-order order xs p e = In-covers xs order p (ground arith)
