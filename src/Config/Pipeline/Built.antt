-- ===== src/Config/Pipeline/Built.antt =====
-- What building a pipeline keeps true of its graph, definition by definition.
use eirctl.Prelude.{
  ◌≡◌, refl, ap, ◌∙◌, subst, Option-cases, Bool-cases, List, [], ◌∷◌, ◌++◌, Text, In, inl, inr, ◌≢◌,
  arith, ok, keys, has, has_iff, Distinct, Distinct-concat, keys-insert, elem,
}
use eirctl.Stage.{Status, Stage}
use eirctl.Graph.{ExecutionGraph, children_of, add_stage, root_node_name, rooted, add_node}
use eirctl.Graph.Links.{link_stage, deps_of}
use eirctl.Graph.Build.{add_stage_sound, rooted-IsAcyclic}
use eirctl.Search.Walks.{IsAcyclic}
use eirctl.Schedule.Ready.{IsReady, link_stage-IsReady, rooted-IsReady, link_all_nodes}
use eirctl.Strings.{is_empty}
use eirctl.Config.Pipeline.{PipelineDefinition, enter_stage, forbidden_char_sequence}

-- A graph with these stages, which the scheduler can run.
pub record IsBuilt (names : List Text) (g : ExecutionGraph) : Type 0 where
  pub ready : IsReady g
  pub acyclic : IsAcyclic (children_of g)
  pub listed : keys g.nodes ≡ root_node_name ∷ names
  pub once : Distinct (keys g.nodes)

pub rooted-IsBuilt : (name : Text) → IsBuilt [] (rooted name)
unfolding rooted
rooted-IsBuilt name = record {
  ready = rooted-IsReady name;
  acyclic = rooted-IsAcyclic name;
  listed = refl;
  once = (λ m. m, tt);
}

keys-link_stage :
    (s : Stage) (g : ExecutionGraph)
    → ¬ In s.name (keys g.nodes)
    → keys (link_stage s g).nodes ≡ keys g.nodes ++ s.name ∷ []
unfolding link_stage add_node
keys-link_stage s g new =
    ap keys (link_all_nodes (deps_of s) s.name (add_node s.name s g))
    ∙ keys-insert s.name s g.nodes new

link_stage-IsBuilt :
    (s : Stage) (names : List Text) (g : ExecutionGraph)
    → s.status ≡ Status.waiting
    → ¬ In s.name (keys g.nodes)
    → IsAcyclic (children_of (link_stage s g))
    → IsBuilt names g
    → IsBuilt (names ++ s.name ∷ []) (link_stage s g)
link_stage-IsBuilt s names g waits new free h =
    let other : s.name ≢ root_node_name = λ e. new (rw h.listed (inl e)) in
    let more = keys-link_stage s g new in
    record {
      ready = link_stage-IsReady s g (other, waits) h.ready;
      acyclic = free;
      listed = more ∙ ap (λ l. l ++ s.name ∷ []) h.listed;
      once = rw more (Distinct-concat (keys g.nodes) s.name h.once new);
    }

-- A stage that is entered.
pub enter_stage-IsBuilt :
    (def : PipelineDefinition) (s : Stage) (names : List Text) (g g' : ExecutionGraph)
    → s.status ≡ Status.waiting
    → enter_stage def s g ≡ ok g'
    → IsBuilt names g
    → IsBuilt (names ++ s.name ∷ []) g'
unfolding enter_stage
enter_stage-IsBuilt def s names g g' waits e h = elim (Bool-cases (is_empty s.name)) [
  | inl empty ↦ cc
  | inr filled ↦ elim (Bool-cases (elem s.name forbidden_char_sequence)) [
    | inl bad ↦ cc
    | inr fine ↦ elim (Bool-cases (has s.name g.nodes)) [
      | inl double ↦ cc
      | inr new ↦ elim (Option-cases (add_stage s g).1) [
        | inr (fault, bad) ↦ cc
        | inl good ↦
            let (added, free) = add_stage_sound s g h.acyclic good in
            let same : link_stage s g ≡ g' = ground arith in
            let absent : ¬ In s.name (keys g.nodes) = ground (arith, has_iff s.name g.nodes) in
            subst (IsBuilt (names ++ s.name ∷ [])) same
              (link_stage-IsBuilt s names g waits absent free h)
      ]
    ]
  ]
]
