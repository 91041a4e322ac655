-- ===== src/Waves/Tests.antt =====
-- The breadth-first search on a small graph.
use eirctl.Prelude.{◌≡◌, List, some, Text, In, Distinct, ◌↔◌}
use eirctl.Search.Walks.{Walk}
use eirctl.Graph.{root_node_name, children_of}
use eirctl.Graph.Tests.{made}
use eirctl.Waves.{bfs_nodes_flattened}
use eirctl.Waves.Breadth.{IsBreadthFirst}
use eirctl.Waves.Flatten.{stages_but_root, bfs_nodes_flattened_lem}

bfs_nodes_flattened_example :
    (order : List Text) × (bfs_nodes_flattened made root_node_name
      ≡ some (stages_but_root made order))
    × Distinct order
    × ((v : Text) → In v order ↔ Walk (children_of made) root_node_name v)
    × IsBreadthFirst (children_of made) root_node_name order
bfs_nodes_flattened_example = bfs_nodes_flattened_lem made root_node_name
