-- ===== src/Graph/Links.antt =====
-- The graph that a list of stages declares, built with no check: what `AddStage` leaves behind
-- when it reports no cycle.
use eirctl.Prelude.{
  ◌≡◌, refl, List, [], ◌∷◌, ◌++◌, Text, In, In-append, ◌⊎◌, inl, inr, ◌↔◌, arith, text_eq,
  Bool-cases, if◌then◌else◌, list_laws, lookup, In-keys-insert, keys,
}
use eirctl.Stage.{Stage}
use eirctl.Graph.{
  ExecutionGraph, children_of, parents_of, list_at, link, add_node, root_node_name, rooted,
}
use eirctl.Graph.Edges.{children_of-link, In-children_of-link, In-parents_of-link}

-- The names on which a stage hangs: its dependencies, or the root if it has none.
abbrev pub deps_of : Stage → List Text
deps_of s = elim s.depends_on [ [] ↦ root_node_name ∷ [] | d ∷ ds ↦ d ∷ ds ]

-- `child`, as often as `v` stands among the dependencies.
abbrev pub copies : Text → List Text → Text → List Text
copies v [] child = []
copies v (d ∷ ds) child = let rest = copies v ds child in if text_eq d v then child ∷ rest else rest

-- The stages that name `v` as a dependency, in the order of the list.
unfoldable pub declared : List Stage → Text → List Text
declared [] v = []
declared (s ∷ ss) v = copies v (deps_of s) s.name ++ declared ss v

unfoldable pub link_all : List Text → Text → ExecutionGraph → ExecutionGraph
link_all [] child g = g
link_all (d ∷ ds) child g = link_all ds child (link d child g)

unfoldable pub link_stage : Stage → ExecutionGraph → ExecutionGraph
link_stage s g = link_all (deps_of s) s.name (add_node s.name s g)

unfoldable pub link_stages : List Stage → ExecutionGraph → ExecutionGraph
link_stages [] g = g
link_stages (s ∷ ss) g = link_stages ss (link_stage s g)

children_of-link_all :
    (deps : List Text) (child v : Text) (g : ExecutionGraph)
    → children_of (link_all deps child g) v ≡ children_of g v ++ copies v deps child
unfolding link_all
children_of-link_all [] child v g = simp list_laws
children_of-link_all (d ∷ ds) child v g = elim (Bool-cases (text_eq d v)) [
  | inl hit ↦ simp (
    children_of-link_all ds child v (link d child g),
    children_of-link d child g v,
    hit,
    list_laws,
  )
  | inr miss ↦
      simp (children_of-link_all ds child v (link d child g), children_of-link d child g v, miss)
]

children_of-link_stage :
    (s : Stage) (v : Text) (g : ExecutionGraph)
    → children_of (link_stage s g) v ≡ children_of g v ++ copies v (deps_of s) s.name
unfolding link_stage add_node
children_of-link_stage s v g = children_of-link_all (deps_of s) s.name v (add_node s.name s g)

pub children_of-link_stages :
    (ss : List Stage) (v : Text) (g : ExecutionGraph)
    → children_of (link_stages ss g) v ≡ children_of g v ++ declared ss v
unfolding link_stages declared
children_of-link_stages [] v g = simp list_laws
children_of-link_stages (s ∷ ss) v g =
    simp (children_of-link_stages ss v (link_stage s g), children_of-link_stage s v g, list_laws)

-- Linking only adds edges.
pub link_all_mono :
    (deps : List Text) (child v w : Text) (g : ExecutionGraph)
    → In w (children_of g v)
    → In w (children_of (link_all deps child g) v)
link_all_mono deps child v w g e =
    rw (children_of-link_all deps child v g)
      ((In-append w (children_of g v) (copies v deps child)).1 (inl e))

pub link_stages_mono :
    (ss : List Stage) (v w : Text) (g : ExecutionGraph)
    → In w (children_of g v)
    → In w (children_of (link_stages ss g) v)
link_stages_mono ss v w g e =
    rw (children_of-link_stages ss v g) ((In-append w (children_of g v) (declared ss v)).1 (inl e))

-- `parent` is the converse of `children`.
abbrev pub IsMirrored : ExecutionGraph → Type 0
IsMirrored g = (v w : Text) → In w (children_of g v) ↔ In v (parents_of g w)

link_all-IsMirrored :
    (deps : List Text) (child : Text) (g : ExecutionGraph)
    → IsMirrored g
    → IsMirrored (link_all deps child g)
unfolding link_all
link_all-IsMirrored [] child g h = h
link_all-IsMirrored (d ∷ ds) child g h = link_all-IsMirrored ds child (link d child g) (λ v w.
    ground (arith, In-children_of-link d child g v w, In-parents_of-link d child g v w, h v w))

link_stage-IsMirrored :
    (s : Stage) (g : ExecutionGraph) → IsMirrored g → IsMirrored (link_stage s g)
unfolding link_stage add_node
link_stage-IsMirrored s g h = link_all-IsMirrored (deps_of s) s.name (add_node s.name s g) h

pub link_stages-IsMirrored :
    (ss : List Stage) (g : ExecutionGraph) → IsMirrored g → IsMirrored (link_stages ss g)
unfolding link_stages
link_stages-IsMirrored [] g h = h
link_stages-IsMirrored (s ∷ ss) g h =
    link_stages-IsMirrored ss (link_stage s g) (link_stage-IsMirrored s g h)

pub rooted-IsMirrored : (name : Text) → IsMirrored (rooted name)
unfolding rooted list_at lookup
rooted-IsMirrored name v w = (λ h. h, λ h. h)

nodes-link_all :
    (deps : List Text) (child : Text) (g : ExecutionGraph) → (link_all deps child g).nodes ≡ g.nodes
unfolding link_all link
nodes-link_all [] child g = refl
nodes-link_all (d ∷ ds) child g = nodes-link_all ds child (link d child g)

abbrev pub names : List Stage → List Text
names [] = []
names (s ∷ ss) = s.name ∷ names ss

-- The nodes are those that were there and the stages of the list.
pub In-nodes-link_stages :
    (ss : List Stage) (n : Text) (g : ExecutionGraph)
    → In n (keys (link_stages ss g).nodes) ↔ (In n (keys g.nodes) ⊎ In n (names ss))
unfolding link_stages link_stage add_node
In-nodes-link_stages [] n g = ground arith
In-nodes-link_stages (s ∷ ss) n g = ground (
  arith,
  In-nodes-link_stages ss n (link_stage s g),
  nodes-link_all (deps_of s) s.name (add_node s.name s g),
  In-keys-insert s.name n s g.nodes,
)
