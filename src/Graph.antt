-- ===== src/Graph.antt =====
-- scheduler/graph.go: the execution graph, its construction and its cycle check.
pub mod Edges
pub mod Links
pub mod Cycles
pub mod Build
pub mod Tests
use eirctl.Prelude.{
  ℕ, zero, suc, Bool, true, false, List, [], ◌∷◌, ◌++◌, Option, none, some, Text, codes, Map,
  lookup, insert, length, Result, ok, err, if◌then◌else◌, text_eq, keys,
}
use eirctl.Variables.{Any}
use eirctl.Envfile.{Envfile}
use eirctl.Stage.{Status, Stage, new_stage, update_status}
use eirctl.Search.{Marks, Found, unmarked, dfs}

abbrev pub root_node_name : Text
root_node_name = codes "root"

-- `out_of_fuel` belongs to the model only.
pub data Fault : Type 0 where
  cycle_detected : (pipeline child node : Text) → Fault
  node_not_found : Text → Fault
  out_of_fuel : Fault

-- A failed stage, by its name, with the error that it left.
pub record GraphError : Type 0 where
  pub stage : Text
  pub error : Text

pub record ExecutionGraph : Type 0 where
  pub generator : Map Any
  pub env : Map Text
  pub envfile : Option Envfile
  pub errors : List GraphError
  pub name : Text
  pub alias : Text
  pub nodes : Map Stage
  pub parent : Map (List Text)
  pub children : Map (List Text)

-- `m[k]`, which is an empty slice where `m` lacks the key.
unfoldable pub list_at : Text → Map (List Text) → List Text
list_at k m = elim (lookup k m) [ none ↦ [] | some l ↦ l ]

-- `m[k] = append(m[k], v)`
unfoldable pub append_at : Text → Text → Map (List Text) → Map (List Text)
append_at k v m = insert k (list_at k m ++ v ∷ []) m

abbrev pub children_of : ExecutionGraph → Text → List Text
children_of g n = list_at n g.children

abbrev pub parents_of : ExecutionGraph → Text → List Text
parents_of g n = list_at n g.parent

-- Every name that the map mentions.
unfoldable pub mentioned : Map (List Text) → List Text
mentioned [] = []
mentioned ((k, l) ∷ m) = k ∷ (l ++ mentioned m)

unfoldable pub fault_of : Text → Found Marks → Option Fault
fault_of pipeline (Found.ok _) = none
fault_of pipeline (Found.cycle child node) = some (cycle_detected pipeline child node)
fault_of pipeline Found.out_of_fuel = some out_of_fuel

unfoldable pub cycle_dfs : ExecutionGraph → Text → Option Fault
cycle_dfs g node =
    fault_of g.name (dfs (children_of g) (length (node ∷ mentioned g.children)) node unmarked)

unfoldable pub add_node : Text → Stage → ExecutionGraph → ExecutionGraph
add_node name stage g = record g { nodes = insert name stage g.nodes }

-- The edge stays in the graph also where it closes a cycle.
unfoldable pub link : Text → Text → ExecutionGraph → ExecutionGraph
link parent child g = record g {
  parent = append_at child parent g.parent;
  children = append_at parent child g.children;
}

unfoldable pub add_edge : Text → Text → ExecutionGraph → ExecutionGraph × Option Fault
add_edge parent child g = let g' = link parent child g in (g', cycle_dfs g' parent)

unfoldable pub add_edges : List Text → Text → ExecutionGraph → ExecutionGraph × Option Fault
add_edges [] child g = (g, none)
add_edges (dep ∷ deps) child g =
    let (g', fault) = add_edge dep child g in
    elim fault [ none ↦ add_edges deps child g' | some e ↦ (g', some e) ]

unfoldable pub add_stage : Stage → ExecutionGraph → ExecutionGraph × Option Fault
add_stage stage g =
    let g' = add_node stage.name stage g in
    elim stage.depends_on [
      | [] ↦ add_edge root_node_name stage.name g'
      | dep ∷ deps ↦ add_edges (dep ∷ deps) stage.name g'
    ]

-- The graph with only the root node, which is done from the start.
unfoldable pub rooted : Text → ExecutionGraph
rooted name =
    let root =
      update_status (new_stage name (λ s. record s { name = root_node_name })) Status.done in
    record {
      generator = [];
      env = [];
      envfile = none;
      errors = [];
      name = name;
      alias = [];
      nodes = (root_node_name, root) ∷ [];
      parent = [];
      children = [];
    }

unfoldable pub add_stages : List Stage → ExecutionGraph → Result Fault ExecutionGraph
add_stages [] g = ok g
add_stages (stage ∷ stages) g =
    let (g', fault) = add_stage stage g in
    elim fault [ none ↦ add_stages stages g' | some e ↦ err e ]

unfoldable pub new_execution_graph : Text → List Stage → Result Fault ExecutionGraph
new_execution_graph name stages = add_stages stages (rooted name)

unfoldable pub node : ExecutionGraph → Text → Result Fault Stage
node g name = elim (lookup name g.nodes) [ none ↦ err (node_not_found name) | some t ↦ ok t ]

-- `stages[n] = g.nodes[n]` over the names; a name that is no node gives a nil pointer.
unfoldable pub stages_of : ExecutionGraph → List Text → Map (Option Stage) → Map (Option Stage)
stages_of g [] stages = stages
stages_of g (n ∷ names) stages = stages_of g names (insert n (lookup n g.nodes) stages)

unfoldable pub parents : ExecutionGraph → Text → Map (Option Stage)
parents g name = stages_of g (parents_of g name) []

unfoldable pub children : ExecutionGraph → Text → Map (Option Stage)
children g name = stages_of g (children_of g name) []

unfoldable pub with_stage_error : ExecutionGraph → Stage → Text → ExecutionGraph
with_stage_error g stage e = record g {
  errors = g.errors ++ record { stage = stage.name; error = e } ∷ [];
}

-- The last of the errors, if there is one.
last : List GraphError → Option Text
last [] = none
last (e ∷ []) = some e.error
last (_ ∷ e ∷ es) = last (e ∷ es)

unfoldable pub last_error : ExecutionGraph → Option Text
unfolding last
last_error g = last g.errors
