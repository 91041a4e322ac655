-- ===== src/Schedule/Invariant.antt =====
-- What every step of the loop and of the goroutines keeps, and the change of one stage.
use eirctl.Prelude.{
  ◌≡◌, ◌≢◌, Bool, true, List, some, Text, text_eq, text_eq_iff, In, ◌⊎◌, inl, inr, arith,
  Bool-cases, lookup, ⊎_elim, subst,
}
use mathlib.Core.Path.{fun_ext}
use eirctl.Stage.{Status, Stage}
use eirctl.Graph.{ExecutionGraph, parents_of, root_node_name}
use eirctl.Schedule.{Phase, idle, executing, failed, stored, Place, checking, World, update, allows}

-- A parent that lets its children run: done, skipped, or failed where that is allowed.
abbrev pub Settled : ExecutionGraph → (Text → Status) → Text → Type 0
Settled g status p =
    (status p ≡ Status.done)
    ⊎ (status p ≡ Status.skipped)
    ⊎ (status p ≡ Status.error) × (allows g p ≡ true)

-- A stage that was started: it runs, it has run, or it failed and its goroutine has not returned.
abbrev pub IsStarted : World → Text → Type 0
IsStarted w n =
    (w.status n ≡ Status.running)
    ⊎ (w.status n ≡ Status.done)
    ⊎ (w.phase n ≡ failed)
    ⊎ (w.phase n ≡ stored)

-- The key of a node is its stage's name, but for the root.
abbrev pub IsNamed : ExecutionGraph → Type 0
IsNamed g = (n : Text) (s : Stage) → lookup n g.nodes ≡ some s → (n ≢ root_node_name) → s.name ≡ n

pub update_same {ℓ} : {A : Type ℓ} (n : Text) (a : A) (f : Text → A) → f n ≡ a → update n a f ≡ f
update_same n a f e = fun_ext (λ m. ground (arith, text_eq_iff n m))

module _ (g : ExecutionGraph) where
  -- What the loop knows of the stage that it is checking.
  abbrev pub Checked : World → Place → Type 0
  Checked w (checking n ps ready todo) =
      ((w.status n ≡ Status.waiting) ⊎ (w.status n ≡ Status.canceled))
      × (w.phase n ≡ idle)
      × (n ≢ root_node_name)
      × (ready ≡ true
          → (w.status n ≡ Status.waiting)
            × ((p : Text) → In p (parents_of g n) → Settled g w.status p ⊎ In p ps))
  Checked w _ = Unit

  pub record IsSafe (w : World) : Type 0 where
    pub executes : (n : Text) → w.phase n ≡ executing → w.status n ≡ Status.running
    pub fails_with : (n : Text) → w.phase n ≡ failed → w.status n ≡ Status.error
    pub stores : (n : Text) → w.phase n ≡ stored → (w.status n ≡ Status.error) × (allows g n ≡ true)
    pub rooted : (w.status root_node_name ≡ Status.done) × (w.phase root_node_name ≡ idle)
    pub settled : (n p : Text) → IsStarted w n → In p (parents_of g n) → Settled g w.status p
    pub checked : Checked w w.place

  -- A step of the goroutine or of the loop that moves one stage, out of a state in which it was
  -- not settled or into a settled one, keeps what is settled.
  pub Settled-update :
      (status : Text → Status) (m p : Text) (s : Status)
      → ¬ Settled g status m ⊎ Settled g (update m s status) m
      → Settled g status p
      → Settled g (update m s status) p
  Settled-update status m p s h old = elim (Bool-cases (text_eq m p)) [
    | inl same ↦
        let e = (text_eq_iff m p).0 same in
        ⊎_elim (λ un. absurd (un (rw e old))) (λ now. subst (Settled g (update m s status)) e now) h
    | inr other ↦ rw other old
  ]

  -- What one stage's change of status and phase has to meet for the invariant to stay.
  pub record Change (w : World) (m : Text) (s : Status) (ph : Phase) : Type 0 where
    pub stable : ¬ Settled g w.status m ⊎ Settled g (update m s w.status) m
    pub executes : ph ≡ executing → s ≡ Status.running
    pub fails_with : ph ≡ failed → s ≡ Status.error
    pub stores : ph ≡ stored → (s ≡ Status.error) × (allows g m ≡ true)
    pub not_root : m ≢ root_node_name
    pub parents :
        (p : Text)
        → (s ≡ Status.running) ⊎ (s ≡ Status.done) ⊎ (ph ≡ failed) ⊎ (ph ≡ stored)
        → In p (parents_of g m)
        → Settled g w.status p

  abbrev pub changed : World → Text → Status → Phase → World
  changed w m s ph = record w { status = update m s w.status; phase = update m ph w.phase }

  changed-settled :
      (w : World) (m : Text) (s : Status) (ph : Phase)
      → IsSafe w
      → Change w m s ph
      → (n p : Text) → IsStarted (changed w m s ph) n
      → In p (parents_of g n)
      → Settled g (update m s w.status) p
  changed-settled w m s ph h c n p started edge = elim (Bool-cases (text_eq m n)) [
    | inl same ↦
        Settled-update w.status m p s c.stable
          (c.parents p (rw same at started) (rw (← (text_eq_iff m n).0 same) at edge))
    | inr other ↦ Settled-update w.status m p s c.stable (h.settled n p (rw other at started) edge)
  ]

  -- The rest of the invariant, for any place of which the loop's knowledge is given.
  pub changed-IsSafe :
      (w : World) (m : Text) (s : Status) (ph : Phase) (place : Place) (errors : List Text)
      (cancelled : Bool)
      → IsSafe w
      → Change w m s ph
      → Checked (changed w m s ph) place
      → IsSafe (record {
        status = update m s w.status;
        phase = update m ph w.phase;
        errors = errors;
        cancelled = cancelled;
        place = place;
      })
  changed-IsSafe w m s ph place errors cancelled h c k = record {
    executes = λ n. ground (arith, text_eq_iff m n, h.executes n, c.executes);
    fails_with = λ n. ground (arith, text_eq_iff m n, h.fails_with n, c.fails_with);
    stores = λ n. ground (arith, text_eq_iff m n, h.stores n, c.stores);
    rooted = ground (arith, text_eq_iff m root_node_name, h.rooted, c.not_root);
    settled = changed-settled w m s ph h c;
    checked = k;
  }
