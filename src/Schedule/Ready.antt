-- ===== src/Schedule/Ready.antt =====
-- The graphs that `NewExecutionGraph` builds are ready for the scheduler.
use eirctl.Prelude.{
  ◌≡◌, refl, ◌≢◌, List, [], ◌∷◌, some, Text, All, arith, lookup, lookup-insert, text_eq,
  text_eq_iff, ok, ◌∙◌, sym, subst, if◌then◌else◌, text_eq_refl,
}
use eirctl.Stage.{Status, Stage, update_status}
use eirctl.Graph.{
  ExecutionGraph, parents_of, list_at, link, add_node, root_node_name, rooted, new_execution_graph,
}
use eirctl.Graph.Edges.{parents_of-link_ne}
use eirctl.Graph.Links.{deps_of, link_all, link_stage, link_stages}
use eirctl.Graph.Build.{new_execution_graph-eq}
use eirctl.Schedule.{start}
use eirctl.Schedule.Invariant.{IsNamed}

-- What the scheduler relies on: the root is done and hangs on nothing, every other node waits,
-- and a node's key is its stage's name.
pub record IsReady (g : ExecutionGraph) : Type 0 where
  pub named : IsNamed g
  pub root_done : (start g).status root_node_name ≡ Status.done
  pub waits : (n : Text) → (n ≢ root_node_name) → (start g).status n ≡ Status.waiting
  pub root_first : parents_of g root_node_name ≡ []

-- A stage that may be added: not the root, and waiting.
abbrev pub IsFresh : Stage → Type 0
IsFresh s = (s.name ≢ root_node_name) × (s.status ≡ Status.waiting)

pub link_all_nodes :
    (deps : List Text) (child : Text) (g : ExecutionGraph) → (link_all deps child g).nodes ≡ g.nodes
unfolding link_all link
link_all_nodes [] child g = refl
link_all_nodes (d ∷ ds) child g = link_all_nodes ds child (link d child g)

link_all_parents :
    (deps : List Text) (child : Text) (g : ExecutionGraph)
    → (child ≢ root_node_name)
    → parents_of (link_all deps child g) root_node_name ≡ parents_of g root_node_name
unfolding link_all
link_all_parents [] child g other = refl
link_all_parents (d ∷ ds) child g other =
    link_all_parents ds child (link d child g) other
    ∙ parents_of-link_ne d child g root_node_name other

link_stage_parents :
    (s : Stage) (g : ExecutionGraph)
    → (s.name ≢ root_node_name)
    → parents_of (link_stage s g) root_node_name ≡ parents_of g root_node_name
unfolding link_stage add_node
link_stage_parents s g other = link_all_parents (deps_of s) s.name (add_node s.name s g) other

lookup-link_stage :
    (s : Stage) (n : Text) (g : ExecutionGraph)
    → lookup n (link_stage s g).nodes ≡ (if text_eq s.name n then some s else lookup n g.nodes)
unfolding link_stage add_node
lookup-link_stage s n g = ground (
  arith,
  link_all_nodes (deps_of s) s.name (add_node s.name s g),
  lookup-insert s.name n s g.nodes,
)

pub link_stage-IsReady :
    (s : Stage) (g : ExecutionGraph) → IsFresh s → IsReady g → IsReady (link_stage s g)
unfolding start
link_stage-IsReady s g (other, waits) h = record {
  named = λ n t found not_root.
      ground (arith, lookup-link_stage s n g, text_eq_iff s.name n, h.named n t);
  root_done =
      ground (
        arith,
        lookup-link_stage s root_node_name g,
        text_eq_iff s.name root_node_name,
        h.root_done,
      );
  waits = λ n not_root.
      ground (arith, lookup-link_stage s n g, text_eq_iff s.name n, h.waits n not_root);
  root_first = link_stage_parents s g other ∙ h.root_first;
}

link_stages-IsReady :
    (ss : List Stage) (g : ExecutionGraph) → All IsFresh ss → IsReady g → IsReady (link_stages ss g)
unfolding link_stages
link_stages-IsReady [] g fresh h = h
link_stages-IsReady (s ∷ ss) g fresh h =
    link_stages-IsReady ss (link_stage s g) fresh.1 (link_stage-IsReady s g fresh.0 h)

pub rooted-IsReady : (name : Text) → IsReady (rooted name)
unfolding start rooted lookup list_at update_status
rooted-IsReady name = record {
  named = λ n s found other. ground (arith, text_eq_iff root_node_name n);
  root_done = ground (arith, text_eq_refl root_node_name);
  waits = λ n other. ground (arith, text_eq_iff root_node_name n);
  root_first = refl;
}

pub new_execution_graph-IsReady :
    (name : Text) (stages : List Stage) (g : ExecutionGraph)
    → All IsFresh stages
    → new_execution_graph name stages ≡ ok g
    → IsReady g
new_execution_graph-IsReady name stages g fresh e =
    subst IsReady (sym (new_execution_graph-eq name stages g e))
      (link_stages-IsReady stages (rooted name) fresh (rooted-IsReady name))
