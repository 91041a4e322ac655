-- ===== src/Search/Walks.antt =====
-- Walks along a successor function, cycles, and what the search has finished.
use eirctl.Prelude.{◌≡◌, true, false, List, Text, In}
use eirctl.Search.{Marks}

module _ (next : Text → List Text) where
  pub data Walk (a : Text) : Text → Type 0 where
    here : Walk a a
    step : {b c : Text} → Walk a b → In c (next b) → Walk a c

  -- A closed walk with at least one edge.
  abbrev pub Cycle : Text → Type 0
  Cycle v = (w : Text) × In w (next v) × Walk w v

  abbrev pub IsAcyclic : Type 0
  IsAcyclic = (v : Text) → ¬ Cycle v

  pub Walk-cons : (a b c : Text) → In b (next a) → Walk b c → Walk a c
  Walk-cons a b c e here = step here e
  Walk-cons a b c e (step {b = d} w f) = step (Walk-cons a b d e w) f

  pub Walk-trans : (a b c : Text) → Walk a b → Walk b c → Walk a c
  Walk-trans a b c v here = v
  Walk-trans a b c v (step {b = d} w f) = step (Walk-trans a b d v w) f

  -- A set that holds the targets of its edges holds what its elements reach.
  pub Walk-closed :
      (P : Text → Type 0)
      → ((v w : Text) → P v → In w (next v) → P w)
      → (a b : Text) → Walk a b
      → P a
      → P b
  Walk-closed P keep a b here p = p
  Walk-closed P keep a b (step {b = c} w e) p = keep c b (Walk-closed P keep a c w p) e

-- `v` was visited, and its call has returned.
abbrev pub Finished : Marks → Text → Type 0
Finished s v = (s.visited v ≡ true) × (s.in_stack v ≡ false)
