-- ===== src/Waves.antt =====
-- The breadth-first search of `BFSNodesFlattened` (scheduler/graph.go).
pub mod Order
pub mod Breadth
pub mod Flatten
pub mod Tests
use eirctl.Prelude.{
  ℕ, zero, suc, Bool, true, false, List, [], ◌∷◌, ◌++◌, Option, none, some, Text, text_eq, length,
  if◌then◌else◌, lookup,
}
use eirctl.Stage.{Stage}
use eirctl.Search.{mark}
use eirctl.Graph.{ExecutionGraph, children_of, mentioned, root_node_name}

pub record Wave : Type 0 where
  pub queue : List Text
  pub visited : Text → Bool

-- The inner loop: the children that were not visited are queued.
unfoldable pub offer : List Text → Wave → Wave
offer [] s = s
offer (c ∷ cs) s = elim (s.visited c) [
  | true ↦ offer cs s
  | false ↦ offer cs (record { queue = s.queue ++ c ∷ []; visited = mark c true s.visited })
]

module _ {A : Type 0} (next : Text → List Text) (emit : Text → List A) where
  -- The outer loop; `none` means that the fuel ran out.
  unfoldable pub bfs : ℕ → List Text → (Text → Bool) → List A → Option (List A)
  bfs zero [] visited out = some out
  bfs zero (c ∷ queue) visited out = none
  bfs (suc fuel) [] visited out = some out
  bfs (suc fuel) (c ∷ queue) visited out =
      let s = offer (next c) (record { queue = queue; visited = visited }) in
      bfs fuel s.queue s.visited (out ++ emit c)

-- A node that is queued but not in the graph gives a nil stage.
abbrev pub emit_stage : ExecutionGraph → Text → List (Option Stage)
emit_stage g n = if text_eq n root_node_name then [] else lookup n g.nodes ∷ []

unfoldable pub bfs_nodes_flattened : ExecutionGraph → Text → Option (List (Option Stage))
bfs_nodes_flattened g n =
    bfs (children_of g) (emit_stage g) (length (n ∷ mentioned g.children)) (n ∷ [])
      (mark n true (λ _. false)) []
