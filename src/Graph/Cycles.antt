-- ===== src/Graph/Cycles.antt =====
-- `addEdge` reports a cycle exactly when the edge closes one.
use eirctl.Prelude.{◌≡◌, refl, ◌≢◌, List, ◌∷◌, Option, none, some, Text, In, inl, inr, ◌↔◌, length}
use eirctl.Graph.{
  ExecutionGraph, Fault, cycle_detected, children_of, mentioned, link, add_edge, cycle_dfs,
  fault_of,
}
use eirctl.Graph.Edges.{In-mentioned, In-children_of-link, Walk-link}
use eirctl.Search.{Marks, Found, unmarked, dfs}
use eirctl.Search.Walks.{Walk, here, step, Cycle, IsAcyclic, Walk-trans, Walk-cons}
use eirctl.Search.Complete.{dfs-ok}
use eirctl.Search.Sound.{dfs-eq-cycle}
use eirctl.Search.Fuel.{dfs-ne-out_of_fuel}

abbrev nodes_from : ExecutionGraph → Text → List Text
nodes_from g n = n ∷ mentioned g.children

dfs_ends :
    (g : ExecutionGraph) (n : Text)
    → dfs (children_of g) (length (nodes_from g n)) n unmarked ≢ Found.out_of_fuel
dfs_ends g n =
    dfs-ne-out_of_fuel (children_of g) (nodes_from g n)
      (λ v w _ e. inr (In-mentioned v w g.children e)) n (inl refl)

-- What the cycle check answers: no fault, and no cycle that the node reaches; or a back edge
-- that closes one. The fuel of the model always suffices.
abbrev pub Answer : ExecutionGraph → Text → Option Fault → Type 0
Answer g n none = (v : Text) → Walk (children_of g) n v → ¬ Cycle (children_of g) v
Answer g n (some (cycle_detected pipeline child at)) =
    (pipeline ≡ g.name)
    × In child (children_of g at)
    × Walk (children_of g) child at
    × Walk (children_of g) n at
Answer g n (some _) = ⊥

pub cycle_dfs-Answer : (g : ExecutionGraph) (n : Text) → Answer g n (cycle_dfs g n)
unfolding cycle_dfs fault_of
cycle_dfs-Answer g n = go (dfs (children_of g) (length (nodes_from g n)) n unmarked) refl
  where
    go :
        (r : Found Marks)
        → dfs (children_of g) (length (nodes_from g n)) n unmarked ≡ r
        → Answer g n (fault_of g.name r)
    go (Found.ok s) e = λ v w. dfs-ok (children_of g) (length (nodes_from g n)) n v s e w
    go (Found.cycle child at) e =
        let (edge, back, to) =
          dfs-eq-cycle (children_of g) (length (nodes_from g n)) n child at e in
        (refl, edge, back, to)
    go Found.out_of_fuel e = dfs_ends g n e

module _ (parent child : Text) (g : ExecutionGraph) where
  abbrev after : ExecutionGraph
  after = link parent child g

  Walk-after : (a b : Text) → Walk (children_of g) a b → Walk (children_of after) a b
  Walk-after a b here = here
  Walk-after a b (step {b = m} w e) =
      step (Walk-after a m w) ((In-children_of-link parent child g m b).1 (inl e))

  -- In an acyclic graph a cycle of the linked graph runs through the new edge.
  Cycle-after :
      (v : Text)
      → IsAcyclic (children_of g)
      → Cycle (children_of after) v
      → Walk (children_of g) child parent
  Cycle-after v free (w, e, walk) = elim ((In-children_of-link parent child g v w).0 e) [
    | inl old ↦ elim (Walk-link parent child g w v walk) [
      | inl back ↦ absurd (free v (w, old, back))
      | inr (to, from) ↦
          Walk-trans (children_of g) child v parent from
            (Walk-cons (children_of g) v w parent old to)
    ]
    | inr (at, to) ↦ elim (Walk-link parent child g w v walk) [
      | inl back ↦ rw (at, to) at back
      | inr (back, _) ↦ rw to at back
    ]
  ]

  decides :
      (fault : Option Fault)
      → IsAcyclic (children_of g)
      → Answer after parent fault
      → (fault ≡ none) ↔ (¬ Walk (children_of g) child parent)
  decides none free answer = (
    λ _ back. answer parent here (
      child,
      (In-children_of-link parent child g parent child).1 (inr (refl, refl)),
      Walk-after child parent back,
    ),
    λ _. refl,
  )
  decides (some (cycle_detected pipeline a b)) free (_, edge, back, _) =
      (λ e. cc, λ apart. absurd (apart (Cycle-after b free (a, edge, back))))
  decides (some _) free answer = absurd answer

  -- Adding an edge to an acyclic graph succeeds exactly when the child does not lead to the
  -- parent yet.
  pub add_edge_decides :
      IsAcyclic (children_of g)
      → ((add_edge parent child g).1 ≡ none) ↔ (¬ Walk (children_of g) child parent)
  unfolding add_edge
  add_edge_decides free = decides (cycle_dfs after parent) free (cycle_dfs-Answer after parent)

  -- A graph that the check accepts stays acyclic, and a fault names an edge of the new graph
  -- that closes a cycle; it is never the model's lack of fuel.
  pub add_edge_sound :
      IsAcyclic (children_of g)
      → ((add_edge parent child g).1 ≡ none → IsAcyclic (children_of (add_edge parent child g).0))
        × Answer (add_edge parent child g).0 parent (add_edge parent child g).1
  unfolding add_edge
  add_edge_sound free =
      (λ e v c. (add_edge_decides free).0 e (Cycle-after v free c), cycle_dfs-Answer after parent)
