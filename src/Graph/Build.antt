-- ===== src/Graph/Build.antt =====
-- Building a graph succeeds exactly when the declared dependencies have no cycle, and gives the
-- declared graph.
use eirctl.Prelude.{
  ◌≡◌, refl, sym, ap, ◌∙◌, Option-cases, List, [], ◌∷◌, Option, none, some, Text, In, ◌⊎◌, inl, inr,
  ◌↔◌, arith, ok, err, subst, keys, lookup,
}
use mathlib.Core.Path.{fun_ext}
use eirctl.Stage.{Stage}
use eirctl.Graph.{
  ExecutionGraph, Fault, children_of, link, add_node, add_edge, add_edges, add_stage, add_stages,
  root_node_name, rooted, new_execution_graph, list_at,
}
use eirctl.Graph.Edges.{In-children_of-link}
use eirctl.Graph.Links.{
  deps_of, declared, link_all, link_stage, link_stages, link_all_mono, link_stages_mono, IsMirrored,
  link_stages-IsMirrored, rooted-IsMirrored, children_of-link_stages, In-nodes-link_stages, names,
}
use eirctl.Graph.Cycles.{add_edge_decides, add_edge_sound}
use eirctl.Search.Walks.{Walk, here, step, IsAcyclic}

module _ {f g : Text → List Text} (sub : (v w : Text) → In w (f v) → In w (g v)) where
  Walk-sub : {a b : Text} → Walk f a b → Walk g a b
  Walk-sub here = here
  Walk-sub (step {b = m} {c} w e) = step (Walk-sub w) (sub m c e)

  -- Fewer edges make no cycle.
  IsAcyclic-sub : IsAcyclic g → IsAcyclic f
  IsAcyclic-sub free v (w, e, walk) = free v (w, sub v w e, Walk-sub walk)

add_edges-cons :
    (d : Text) (ds : List Text) (child : Text) (g : ExecutionGraph)
    → (add_edge d child g).1 ≡ none
    → add_edges (d ∷ ds) child g ≡ add_edges ds child (link d child g)
unfolding add_edges add_edge
add_edges-cons d ds child g e = rw (e, add_edges)

add_edges-fail :
    (d : Text) (ds : List Text) (child : Text) (g : ExecutionGraph) {e : Fault}
    → (add_edge d child g).1 ≡ some e
    → (add_edges (d ∷ ds) child g).1 ≡ some e
unfolding add_edges add_edge
add_edges-fail d ds child g e = rw (e, add_edges)

-- With no cycle in the result, every edge is accepted.
add_edges_complete :
    (deps : List Text) (child : Text) (g : ExecutionGraph)
    → IsAcyclic (children_of (link_all deps child g))
    → add_edges deps child g ≡ (link_all deps child g, none)
unfolding add_edges link_all
add_edges_complete [] child g free = refl
add_edges_complete (d ∷ ds) child g free =
    let g' = link d child g in
    let edge = In-children_of-link d child g in
    let free' = IsAcyclic-sub (λ v w. link_all_mono ds child v w g') free in
    let old = IsAcyclic-sub (λ v w e. (edge v w).1 (inl e)) free' in
    let fine = (add_edge_decides d child g old).1 (λ back. free' d (
      child,
      (edge d child).1 (inr (refl, refl)),
      Walk-sub (λ v w e. (edge v w).1 (inl e)) back,
    )) in
    add_edges-cons d ds child g fine ∙ add_edges_complete ds child g' free

-- What is accepted is linked, and stays acyclic.
add_edges_sound :
    (deps : List Text) (child : Text) (g : ExecutionGraph)
    → IsAcyclic (children_of g)
    → (add_edges deps child g).1 ≡ none
    → ((add_edges deps child g).0 ≡ link_all deps child g)
      × IsAcyclic (children_of (link_all deps child g))
unfolding add_edges link_all
add_edges_sound [] child g free e = (refl, free)
add_edges_sound (d ∷ ds) child g free e = elim (Option-cases (add_edge d child g).1) [
  | inl fine ↦
      let free' = (add_edge_sound d child g free).0 fine in
      let same = add_edges-cons d ds child g fine in
      let (linked, ok_free) =
        add_edges_sound ds child (link d child g) (unfold add_edge in free') (rw same at e) in
      (ap (λ r. r.0) same ∙ linked, ok_free)
  | inr (fault, bad) ↦ let left = add_edges-fail d ds child g bad in cc
]

add_edges-one :
    (d child : Text) (g : ExecutionGraph) → add_edge d child g ≡ add_edges (d ∷ []) child g
unfolding add_edges
add_edges-one d child g = go (add_edge d child g)
  where
    go :
        (r : ExecutionGraph × Option Fault)
        → r ≡ elim r.1 [ none ↦ (r.0, none) | some e ↦ (r.0, some e) ]
    go (g', none) = refl
    go (g', some e) = refl

-- A stage with no dependencies is one that depends on the root.
add_stage-eq :
    (s : Stage) (g : ExecutionGraph)
    → add_stage s g ≡ add_edges (deps_of s) s.name (add_node s.name s g)
unfolding add_stage
add_stage-eq s g = go s.depends_on
  where
    go :
        (deps : List Text)
        → elim deps [
          | [] ↦ add_edge root_node_name s.name (add_node s.name s g)
          | dep ∷ ds ↦ add_edges (dep ∷ ds) s.name (add_node s.name s g)
        ]
          ≡ add_edges
              (elim deps [ [] ↦ root_node_name ∷ [] | d ∷ ds ↦ d ∷ ds ])
              s.name
              (add_node s.name s g)
    go [] = add_edges-one root_node_name s.name (add_node s.name s g)
    go (d ∷ ds) = refl

add_stages-cons :
    (s : Stage) (ss : List Stage) (g g' : ExecutionGraph)
    → add_stage s g ≡ (g', none)
    → add_stages (s ∷ ss) g ≡ add_stages ss g'
unfolding add_stages
add_stages-cons s ss g g' e = rw (ap (λ r. r.1) e, add_stages) (ap (λ r. add_stages ss r.0) e)

add_stages-fail :
    (s : Stage) (ss : List Stage) (g : ExecutionGraph) {e : Fault}
    → (add_stage s g).1 ≡ some e
    → add_stages (s ∷ ss) g ≡ err e
unfolding add_stages
add_stages-fail s ss g e = rw (e, add_stages)

add_stages_complete :
    (ss : List Stage) (g : ExecutionGraph)
    → IsAcyclic (children_of (link_stages ss g))
    → add_stages ss g ≡ ok (link_stages ss g)
unfolding add_stages link_stages
add_stages_complete [] g free = refl
add_stages_complete (s ∷ ss) g free =
    let free' = IsAcyclic-sub (λ v w. link_stages_mono ss v w (link_stage s g)) free in
    let fine : add_stage s g ≡ (link_stage s g, none) =
      add_stage-eq s g
      ∙ (unfold link_stage in add_edges_complete (deps_of s) s.name (add_node s.name s g) free') in
    add_stages-cons s ss g (link_stage s g) fine ∙ add_stages_complete ss (link_stage s g) free

-- What one stage that is accepted does to the graph.
pub add_stage_sound :
    (s : Stage) (g : ExecutionGraph)
    → IsAcyclic (children_of g)
    → (add_stage s g).1 ≡ none
    → (add_stage s g ≡ (link_stage s g, none)) × IsAcyclic (children_of (link_stage s g))
unfolding link_stage
add_stage_sound s g free fine =
    let (linked, free') =
      add_edges_sound (deps_of s) s.name (add_node s.name s g) (unfold add_node in free)
        (rw (add_stage-eq s g) at fine) in
    (ground (arith, add_stage-eq s g), free')

add_stages_sound :
    (ss : List Stage) (g g' : ExecutionGraph)
    → IsAcyclic (children_of g)
    → add_stages ss g ≡ ok g'
    → (g' ≡ link_stages ss g) × IsAcyclic (children_of g')
unfolding add_stages link_stages
add_stages_sound [] g g' free e = let same : g ≡ g' = cc in (sym same, rw (← same) free)
add_stages_sound (s ∷ ss) g g' free e = elim (Option-cases (add_stage s g).1) [
  | inl fine ↦
      let (next, free') = add_stage_sound s g free fine in
      add_stages_sound ss (link_stage s g) g' free'
        (sym (add_stages-cons s ss g (link_stage s g) next) ∙ e)
  | inr (fault, bad) ↦ let left = add_stages-fail s ss g bad in absurd (cc)
]

pub rooted-IsAcyclic : (name : Text) → IsAcyclic (children_of (rooted name))
unfolding rooted list_at lookup
rooted-IsAcyclic name v (w, e, _) = e

children_of-rooted : (name v : Text) → children_of (rooted name) v ≡ []
unfolding rooted list_at lookup
children_of-rooted name v = refl

children_of-built :
    (name : Text) (ss : List Stage)
    → (λ v. children_of (link_stages ss (rooted name)) v) ≡ declared ss
children_of-built name ss =
    fun_ext (λ v. children_of-link_stages ss v (rooted name) ∙ simp (children_of-rooted name v))

-- Building a graph from stages succeeds exactly when their dependencies have no cycle.
pub new_execution_graph_decides :
    (name : Text) (stages : List Stage)
    → ((g : ExecutionGraph) × (new_execution_graph name stages ≡ ok g))
      ↔ IsAcyclic (declared stages)
unfolding new_execution_graph
new_execution_graph_decides name stages = (
  λ (g, e).
      let (same, free) = add_stages_sound stages (rooted name) g (rooted-IsAcyclic name) e in
      subst IsAcyclic (children_of-built name stages)
        (subst (λ h. IsAcyclic (children_of h)) same free),
  λ free. (
    link_stages stages (rooted name),
    add_stages_complete stages (rooted name)
        (subst IsAcyclic (sym (children_of-built name stages)) free),
  ),
)

-- The graph that is built has exactly the declared edges, in the order of the stages, `parent` is
-- the converse of `children`, and its nodes are the root and the stages.
pub new_execution_graph_edges :
    (name : Text) (stages : List Stage) (g : ExecutionGraph)
    → new_execution_graph name stages ≡ ok g
    → ((v : Text) → children_of g v ≡ declared stages v)
      × IsMirrored g
      × ((n : Text) → In n (keys g.nodes) ↔ ((n ≡ root_node_name) ⊎ In n (names stages)))
unfolding new_execution_graph
new_execution_graph_edges name stages g e =
    let (same, _) = add_stages_sound stages (rooted name) g (rooted-IsAcyclic name) e in
    subst
      (λ h.
        ((v : Text) → children_of h v ≡ declared stages v)
        × IsMirrored h
        × ((n : Text) → In n (keys h.nodes) ↔ ((n ≡ root_node_name) ⊎ In n (names stages))))
      (sym same)
      (
        λ v i. children_of-built name stages i v,
        link_stages-IsMirrored stages (rooted name) (rooted-IsMirrored name),
        λ n. ground (arith, In-nodes-link_stages stages n (rooted name), keys-rooted name),
      )
  where
    keys-rooted : (name : Text) → keys (rooted name).nodes ≡ root_node_name ∷ []
    keys-rooted name = unfold rooted in refl

pub new_execution_graph-IsAcyclic :
    (name : Text) (stages : List Stage) (g : ExecutionGraph)
    → new_execution_graph name stages ≡ ok g
    → IsAcyclic (children_of g)
unfolding new_execution_graph
new_execution_graph-IsAcyclic name stages g e =
    (add_stages_sound stages (rooted name) g (rooted-IsAcyclic name) e).1

pub new_execution_graph-eq :
    (name : Text) (stages : List Stage) (g : ExecutionGraph)
    → new_execution_graph name stages ≡ ok g
    → g ≡ link_stages stages (rooted name)
unfolding new_execution_graph
new_execution_graph-eq name stages g e =
    (add_stages_sound stages (rooted name) g (rooted-IsAcyclic name) e).0
