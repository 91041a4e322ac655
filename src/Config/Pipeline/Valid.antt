-- ===== src/Config/Pipeline/Valid.antt =====
-- A pipeline that is built has the stages that are defined, each once, and each dependency.
use eirctl.Prelude.{
  ◌≡◌, refl, sym, subst, Option-cases, Bool-cases, List, [], ◌∷◌, ◌++◌, append_assoc, append-nil,
  none, some, Text, In, inl, inr, arith, ok, err, ◌>>=◌, >>=-eq-ok, keys, lookup, lookup-insert,
  has_iff, insert, Map, map, text_eq, text_eq_iff, All, All-of_In, Distinct,
}
use eirctl.Variables.{Any}
use eirctl.Stage.{Status, Stage, new_stage, with_env, with_envfile, with_variables}
use eirctl.Graph.{ExecutionGraph, children_of, root_node_name, rooted}
use eirctl.Search.Walks.{IsAcyclic}
use eirctl.Schedule.{start}
use eirctl.Schedule.Ready.{IsReady}
use eirctl.Strings.{is_empty}
use eirctl.Config.Pipeline.{
  PipelineDefinition, Config, Target, find_target, set_alias, set_dir, make_stage, stage_name,
  enter_stage, build_stage, build_stages, is_aliased, first_missing, walk_nodes, check_nodes,
  build_pipeline, nil_dereference, missing_dependency,
}
use eirctl.Config.Pipeline.Built.{IsBuilt, rooted-IsBuilt, enter_stage-IsBuilt}

-- The configuration holds a graph with these stages under the key.
Holds : Text → List Text → Config → Type 0
Holds key ns cfg = (g : ExecutionGraph) × (lookup key cfg.pipelines ≡ some g) × IsBuilt ns g

-- The fields that other definitions write through a pointer are not read by the scheduler.
marked-IsBuilt :
    (ns : List Text) (g : ExecutionGraph) (generator : Map Any) (alias : Text)
    → IsBuilt ns g
    → IsBuilt ns (record g { generator = generator; alias = alias })
unfolding start
marked-IsBuilt ns g generator alias h = record {
  ready = record {
    named = h.ready.named;
    root_done = h.ready.root_done;
    waits = h.ready.waits;
    root_first = h.ready.root_first;
  };
  acyclic = h.acyclic;
  listed = h.listed;
  once = h.once;
}

module _ (key : Text) (ns : List Text) where
  Holds-insert :
      (cfg : Config) (p : Text) (old new : ExecutionGraph)
      → lookup p cfg.pipelines ≡ some old
      → (IsBuilt ns old → IsBuilt ns new)
      → Holds key ns cfg
      → Holds key ns (record cfg { pipelines = insert p new cfg.pipelines })
  unfolding Holds
  Holds-insert cfg p old new there keep (g, here, built) = elim (Bool-cases (text_eq p key)) [
    | inl same ↦
        let e : p ≡ key = ground (arith, text_eq_iff p key) in
        let one : old ≡ g = ground arith in
        (
          new,
          ground (arith, lookup-insert p key new cfg.pipelines),
          keep (subst (IsBuilt ns) (sym one) built),
        )
    | inr other ↦ (g, ground (arith, lookup-insert p key new cfg.pipelines), built)
  ]

  find_target-Holds :
      (def : PipelineDefinition) (cfg cfg' : Config) (target : Target)
      → find_target def cfg ≡ ok (cfg', target)
      → Holds key ns cfg
      → Holds key ns cfg'
  unfolding find_target
  find_target-Holds def cfg cfg' target e h = elim (Bool-cases (is_empty def.task)) [
    | inl by_pipeline ↦ elim (Option-cases (lookup def.pipeline cfg.pipelines)) [
      | inl missing ↦ cc
      | inr (g, there) ↦
          let marked = record g { generator = def.generator } in
          let same : record cfg { pipelines = insert def.pipeline marked cfg.pipelines } ≡ cfg' =
            cc in
          subst (Holds key ns) same (
            Holds-insert cfg def.pipeline g marked there (marked-IsBuilt ns g def.generator g.alias)
              h)
    ]
    | inr by_task ↦ elim (Option-cases (lookup def.task cfg.tasks)) [
      | inl missing ↦ cc
      | inr (t, there) ↦
          let marked = record t { generator = def.generator } in
          let same : record cfg { tasks = insert def.task marked cfg.tasks } ≡ cfg' = cc in
          subst (Holds key ns) same (unfold Holds in h)
    ]
  ]

  set_alias-Holds :
      (def : PipelineDefinition) (target : Target) (cfg : Config)
      → Holds key ns cfg
      → Holds key ns (set_alias def target cfg)
  unfolding set_alias
  set_alias-Holds def target cfg h = elim (Bool-cases (is_aliased def target)) [
    | inl aliased ↦ elim (Option-cases (lookup def.pipeline cfg.pipelines)) [
      | inl missing ↦ rw (aliased, missing) h
      | inr (g, there) ↦
          rw (aliased, there)
            (Holds-insert cfg def.pipeline g (record g { alias = def.pipeline }) there
              (marked-IsBuilt ns g g.generator def.pipeline) h)
    ]
    | inr own ↦ rw own h
  ]

  set_dir-Holds :
      (def : PipelineDefinition) (target : Target) (cfg cfg' : Config)
      → set_dir def target cfg ≡ ok cfg'
      → Holds key ns cfg
      → Holds key ns cfg'
  unfolding set_dir Holds
  set_dir-Holds def target cfg cfg' e h = elim (Bool-cases (is_empty def.dir)) [
    | inl empty ↦ let same : cfg ≡ cfg' = cc in rw (← same) h
    | inr filled ↦ elim (Option-cases target.task) [
      | inl missing ↦ cc
      | inr (k, there) ↦ elim (Option-cases (lookup k cfg.tasks)) [
        | inl missing ↦ cc
        | inr (t, found) ↦ let same : cfg.pipelines ≡ cfg'.pipelines = cc in rw (← same) h
      ]
    ]
  ]

make_stage-waits :
    (def : PipelineDefinition) (target : Target) → (make_stage def target).status ≡ Status.waiting
unfolding make_stage new_stage with_env with_envfile with_variables
make_stage-waits def target = elim (Bool-cases (is_aliased def target)) [
  | inl e ↦ rw e refl
  | inr e ↦ rw e refl
]

build_stage-Holds :
    (key : Text) (ns : List Text) (def : PipelineDefinition) (cfg cfg' : Config)
    → build_stage key def cfg ≡ ok cfg'
    → Holds key ns cfg
    → Holds key (ns ++ stage_name def ∷ []) cfg'
unfolding build_stage Holds
build_stage-Holds key ns def cfg cfg' e h =
    let ((found, target), e1, rest) = >>=-eq-ok (find_target def cfg) _ e in
    let (placed, e2, rest') = >>=-eq-ok (set_dir def target (set_alias def target found)) _ rest in
    let kept = set_dir-Holds key ns def target (set_alias def target found) placed e2 (
      set_alias-Holds key ns def target found
        (find_target-Holds key ns def cfg found target e1 h)) in
    enter def target placed cfg' rest' kept
  where
    enter :
        (def : PipelineDefinition) (target : Target) (placed cfg' : Config)
        → elim (lookup key placed.pipelines) [
          | none ↦ err nil_dereference
          | some g ↦
              enter_stage def (record (make_stage def target) { name = stage_name def }) g
              >>= (λ g'. ok (record placed { pipelines = insert key g' placed.pipelines }))
        ]
          ≡ ok cfg'
        → Holds key ns placed
        → Holds key (ns ++ stage_name def ∷ []) cfg'
    enter def target placed cfg' rest (g, here, built) =
        let s = record (make_stage def target) { name = stage_name def } in
        let (g', entered, end) = >>=-eq-ok (enter_stage def s g) _ (rw here at rest) in
        let new : lookup key (insert key g' placed.pipelines) ≡ some g' =
          ground (arith, lookup-insert key key g' placed.pipelines, text_eq_iff key key) in
        let same : record placed { pipelines = insert key g' placed.pipelines } ≡ cfg' = cc in
        (
          g',
          subst (λ c. lookup key c.pipelines ≡ some g') same new,
          enter_stage-IsBuilt def s ns g g' (make_stage-waits def target) entered built,
        )

build_stages-Holds :
    (key : Text) (ns : List Text) (defs : List PipelineDefinition) (cfg cfg' : Config)
    → build_stages key defs cfg ≡ ok cfg'
    → Holds key ns cfg
    → Holds key (ns ++ map stage_name defs) cfg'
unfolding build_stages
build_stages-Holds key ns [] cfg cfg' e h =
    let same : cfg ≡ cfg' = cc in rw append-nil (rw (← same) h)
build_stages-Holds key ns (def ∷ defs) cfg cfg' e h =
    let (next, e1, rest) = >>=-eq-ok (build_stage key def cfg) _ e in
    let done =
      build_stages-Holds key (ns ++ stage_name def ∷ []) defs next cfg' rest
        (build_stage-Holds key ns def cfg next e1 h) in
    rw append_assoc at done

first_missing_sound :
    (g : ExecutionGraph) (deps : List Text)
    → first_missing g deps ≡ none
    → All (λ d. In d (keys g.nodes)) deps
unfolding first_missing
first_missing_sound g [] e = tt
first_missing_sound g (d ∷ deps) e = ground (arith, has_iff d g.nodes, first_missing_sound g deps)

-- A walk that ends well found every dependency.
walk_nodes_sound :
    (g : ExecutionGraph) (ss : List Stage) (seen found : List Text)
    → walk_nodes g ss seen ≡ ok found
    → All (λ s. All (λ d. In d (keys g.nodes)) s.depends_on) ss
unfolding walk_nodes
walk_nodes_sound g [] seen found e = tt
walk_nodes_sound g (s ∷ ss) seen found e =
    go s.depends_on refl (λ seen. walk_nodes_sound g ss seen found) e
  where
    go :
        (deps : List Text)
        → s.depends_on ≡ deps
        → ((seen : List Text)
            → walk_nodes g ss seen ≡ ok found
            → All (λ s. All (λ d. In d (keys g.nodes)) s.depends_on) ss)
        → elim deps [
          | [] ↦ walk_nodes g ss (seen ++ s.name ∷ [])
          | d ∷ ds ↦ elim (first_missing g (d ∷ ds)) [
            | none ↦ walk_nodes g ss seen
            | some dep ↦ err (missing_dependency s.name dep)
          ]
        ]
          ≡ ok found
        → All (λ s. All (λ d. In d (keys g.nodes)) s.depends_on) (s ∷ ss)
    go [] here others e = (rw here tt, others (seen ++ s.name ∷ []) e)
    go (d ∷ ds) here others e = elim (Option-cases (first_missing g (d ∷ ds))) [
      | inl fine ↦ (rw here (first_missing_sound g (d ∷ ds) fine), others seen (rw fine at e))
      | inr (dep, bad) ↦ absurd (cc)
    ]

-- A pipeline that is built, from the graph that `NewExecutionGraph` begins with, has a node for the root and for each definition, under
-- the definition's name, in their order and each once; its edges have no cycle, the scheduler can
-- run it, and whatever a stage depends on is a node.
pub build_pipeline_sound :
    (range : Map Stage → List Stage)
    → ((m : Map Stage) (n : Text) (s : Stage) → lookup n m ≡ some s → In s (range m))
    → (key name : Text) (defs : List PipelineDefinition) (cfg cfg' : Config)
    → lookup key cfg.pipelines ≡ some (rooted name)
    → build_pipeline range key defs cfg ≡ ok cfg'
    → (g : ExecutionGraph) × (lookup key cfg'.pipelines ≡ some g)
      × (keys g.nodes ≡ root_node_name ∷ map stage_name defs)
      × Distinct (keys g.nodes)
      × IsAcyclic (children_of g)
      × IsReady g
      × ((n : Text) (s : Stage)
          → lookup n g.nodes ≡ some s
          → All (λ d. In d (keys g.nodes)) s.depends_on)
unfolding build_pipeline check_nodes Holds
build_pipeline_sound range all key name defs cfg cfg' begin e =
    let (done, e1, rest) = >>=-eq-ok (build_stages key defs cfg) _ e in
    let (g, here, built) =
      build_stages-Holds key [] defs cfg done e1 (rooted name, begin, rooted-IsBuilt name) in
    let (checked, e2, end) = >>=-eq-ok (check_nodes g (range g.nodes)) _ (rw here at rest) in
    let (roots, walked, some_root) = >>=-eq-ok (walk_nodes g (range g.nodes) []) _ e2 in
    let same : done ≡ cfg' = cc in
    let found = walk_nodes_sound g (range g.nodes) [] roots walked in
    (
      g,
      subst (λ c. lookup key c.pipelines ≡ some g) same here,
      built.listed,
      built.once,
      built.acyclic,
      built.ready,
      λ n s there.
          All-of_In (λ s. All (λ d. In d (keys g.nodes)) s.depends_on) s (range g.nodes) found
            (all g.nodes n s there),
    )
