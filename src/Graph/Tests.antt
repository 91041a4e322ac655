-- ===== src/Graph/Tests.antt =====
-- Small graphs, and the theorems about graphs on them.
use eirctl.Prelude.{
  ◌≡◌, refl, false, List, [], ◌∷◌, none, Text, codes, In, ◌↔◌, ◌⊎◌, ok, err, keys, text_eq, lookup,
  insert, elem,
}
use eirctl.Stage.{Stage, new_stage, update_status, less}
use eirctl.Stage.Order.{less_asymm}
use eirctl.Search.{explore, dfs}
use eirctl.Search.Walks.{Walk, IsAcyclic}
use eirctl.Graph.{
  ExecutionGraph, cycle_detected, root_node_name, children_of, list_at, append_at, mentioned,
  fault_of, cycle_dfs, add_node, link, add_edge, add_edges, add_stage, add_stages, rooted,
  new_execution_graph,
}
use eirctl.Graph.Cycles.{Answer, add_edge_decides, add_edge_sound}
use eirctl.Graph.Links.{declared, IsMirrored, names}
use eirctl.Graph.Build.{
  new_execution_graph_decides, new_execution_graph_edges, new_execution_graph-IsAcyclic,
}

abbrev pub stage : Text → List Text → Stage
stage name deps = new_stage name (λ s. record s { depends_on = deps })

abbrev pub build : Stage
build = stage (codes "build") []

abbrev pub test : Stage
test = stage (codes "test") (codes "build" ∷ [])

abbrev pub deploy : Stage
deploy = stage (codes "deploy") (codes "build" ∷ codes "test" ∷ [])

abbrev pub pipeline : List Stage
pipeline = build ∷ test ∷ deploy ∷ []

-- What a run of the construction computes with.
unfoldable pub construction : Unit {0}
unfolding new_execution_graph add_stages add_stage add_edges add_edge add_node link cycle_dfs
    fault_of mentioned append_at list_at rooted dfs explore lookup insert text_eq new_stage
    update_status
construction = tt

abbrev pub made : ExecutionGraph
unfolding construction
made = elim (new_execution_graph (codes "ci") pipeline) [ ok g ↦ g | err e ↦ rooted [] ]

pub new_execution_graph-pipeline : new_execution_graph (codes "ci") pipeline ≡ ok made
unfolding construction
new_execution_graph-pipeline = refl

new_execution_graph-cyclic :
    new_execution_graph
      (codes "ci")
      (stage (codes "a") (codes "b" ∷ []) ∷ stage (codes "b") (codes "a" ∷ []) ∷ [])
    ≡ err (cycle_detected (codes "ci") (codes "a") (codes "b"))
unfolding construction
new_execution_graph-cyclic = refl

new_execution_graph_decides_example :
    ((g : ExecutionGraph) × (new_execution_graph (codes "ci") pipeline ≡ ok g))
    ↔ IsAcyclic (declared pipeline)
new_execution_graph_decides_example = new_execution_graph_decides (codes "ci") pipeline

new_execution_graph_edges_example :
    ((v : Text) → children_of made v ≡ declared pipeline v)
    × IsMirrored made
    × ((n : Text) → In n (keys made.nodes) ↔ ((n ≡ root_node_name) ⊎ In n (names pipeline)))
new_execution_graph_edges_example =
    new_execution_graph_edges (codes "ci") pipeline made new_execution_graph-pipeline

pub made-IsAcyclic : IsAcyclic (children_of made)
made-IsAcyclic =
    new_execution_graph-IsAcyclic (codes "ci") pipeline made new_execution_graph-pipeline

-- An edge from the last stage back to the first is refused.
add_edge_decides_example :
    ((add_edge (codes "deploy") (codes "build") made).1 ≡ none)
    ↔ (¬ Walk (children_of made) (codes "build") (codes "deploy"))
add_edge_decides_example = add_edge_decides (codes "deploy") (codes "build") made made-IsAcyclic

add_edge_sound_example :
    ((add_edge (codes "deploy") (codes "build") made).1 ≡ none
      → IsAcyclic (children_of (add_edge (codes "deploy") (codes "build") made).0))
    × Answer
        (add_edge (codes "deploy") (codes "build") made).0
        (codes "deploy")
        (add_edge (codes "deploy") (codes "build") made).1
add_edge_sound_example = add_edge_sound (codes "deploy") (codes "build") made made-IsAcyclic

less_asymm_example : less test build ≡ false
unfolding construction
less_asymm_example = less_asymm build test (λ h. absurd h.1) (unfold less elem in refl)
