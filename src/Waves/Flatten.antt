-- ===== src/Waves/Flatten.antt =====
-- `BFSNodesFlattened` on a graph.
use eirctl.Prelude.{
  ◌≡◌, refl, Bool, false, true, List, [], ◌∷◌, some, Text, text_eq_iff, In, Distinct, ◌↔◌, inl, inr,
  arith, Option, Bool-cases, not, map, filter_by, lookup, text_eq, length, ap, ◌∙◌, ⊎_elim,
}
use mathlib.Core.Option
use eirctl.Search.{mark}
use eirctl.Search.Walks.{Walk, here}
use eirctl.Search.Fuel.{unseen-mark, unseen-unmarked}
use eirctl.Stage.{Stage}
use eirctl.Graph.{root_node_name, ExecutionGraph, children_of, mentioned}
use eirctl.Graph.Edges.{In-mentioned}
use eirctl.Waves.{emit_stage, bfs_nodes_flattened}
use eirctl.Waves.Breadth.{IsBreadthFirst, bfs-IsBreadthFirst}
use eirctl.Waves.Order.{IsRun, bfs_run, bfs_ends, bfs-emit, emit_all}

IsRun-start :
    (next : Text → List Text) (n : Text)
    → IsRun next n [] (record { queue = n ∷ []; visited = mark n true (λ _. false) })
IsRun-start next n = record {
  wave = record { marked = λ v. ground (arith, text_eq_iff n v); distinct = (λ m. m, tt) };
  started = inl refl;
  reached = λ v m. ⊎_elim (λ same. rw same here) absurd m;
  closed = λ v w m. absurd m;
}

-- The stages of the names that are not the root's.
abbrev pub stages_but_root : ExecutionGraph → List Text → List (Option Stage)
stages_but_root g order =
    map (λ n. lookup n g.nodes) (filter_by (λ n. not (text_eq n root_node_name)) order)

emit_all-emit_stage :
    (g : ExecutionGraph) (order : List Text)
    → emit_all (emit_stage g) order ≡ stages_but_root g order
emit_all-emit_stage g [] = refl
emit_all-emit_stage g (n ∷ ns) = elim (Bool-cases (text_eq n root_node_name)) [
  | inl root ↦ rw root (emit_all-emit_stage g ns)
  | inr other ↦ rw other (ap (λ l. lookup n g.nodes ∷ l) (emit_all-emit_stage g ns))
]

-- The search always ends. There is an order of the nodes in which each node that can be reached from
-- the first one stands exactly once, and no other: the first one, and then the children of each of
-- them in that order, the first occurrence of each. The search lists the stages of that order, and
-- leaves out the root.
pub bfs_nodes_flattened_lem :
    (g : ExecutionGraph) (n : Text)
    → (order : List Text) × (bfs_nodes_flattened g n ≡ some (stages_but_root g order))
      × Distinct order
      × ((v : Text) → In v order ↔ Walk (children_of g) n v)
      × IsBreadthFirst (children_of g) n order
unfolding bfs_nodes_flattened
bfs_nodes_flattened_lem g n =
    let nodes = n ∷ mentioned g.children in
    let seen : Text → Bool = mark n true (λ _. false) in
    let (order, e) =
      bfs_ends (children_of g) nodes (λ v w _ edge. inr (In-mentioned v w g.children edge))
        (length nodes) (n ∷ []) seen [] (λ c m. ⊎_elim inl absurd m)
        (omega (arith, unseen-mark n nodes (λ _. false) (inl refl) refl, unseen-unmarked nodes)) in
    let (distinct, members) =
      bfs_run (children_of g) n (length nodes) (n ∷ []) seen [] order
        (IsRun-start (children_of g) n) e in
    (
      order,
      bfs-emit (children_of g) (emit_stage g) (length nodes) (n ∷ []) seen []
          ∙ ap (Option.map (emit_all (emit_stage g))) e
          ∙ ap some (emit_all-emit_stage g order),
      distinct,
      members,
      bfs-IsBreadthFirst (children_of g) n (length nodes) (n ∷ []) seen [] order
          (IsRun-start (children_of g) n) refl e,
    )
