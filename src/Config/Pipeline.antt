-- ===== src/Config/Pipeline.antt =====
-- internal/config/pipeline.go: the stages of a pipeline, from their definitions. A pointer to a
-- task or a pipeline is the key under which the configuration holds it, so that what is written
-- through the pointer is written there; the graph under construction is one of these pipelines.
pub mod Built
pub mod Valid
pub mod Tests
use eirctl.Prelude.{
  ℕ, Bool, true, false, List, [], ◌∷◌, ◌++◌, Option, none, some, Text, codes, Map, lookup, insert,
  has, elem, Result, ok, err, ◌>>=◌, if◌then◌else◌, text_eq,
}
use eirctl.Variables.{Any, str, from_map, from_vars_map, set}
use eirctl.Envfile.{Envfile}
use eirctl.Stage.{Stage, new_stage, with_env, with_envfile, with_variables}
use eirctl.Task.{Task}
use eirctl.Strings.{is_empty}
use eirctl.Graph.{Fault, ExecutionGraph, add_stage}

pub record PipelineDefinition : Type 0 where
  pub source_file : Text
  pub name : Text
  pub condition : Text
  pub task : Text
  pub pipeline : Text
  pub depends_on : List Text
  pub allow_failure : Bool
  pub dir : Text
  pub env : Map Text
  pub envfile : Option Envfile
  pub variables : Map Any
  pub generator : Map Any

-- The part of `Config` that a pipeline is built from.
pub record Config : Type 0 where
  pub tasks : Map Task
  pub pipelines : Map ExecutionGraph

-- `nil_dereference` is the panic of the runtime.
pub data StageBuildFailure : Type 0 where
  no_such_task no_such_pipeline must_have_name forbidden_name same_name no_starting_point :
      Text → StageBuildFailure
  missing_dependency : (stage dependency : Text) → StageBuildFailure
  graph_fault : Fault → StageBuildFailure
  nil_dereference : StageBuildFailure

abbrev pub forbidden_char_sequence : List Text
forbidden_char_sequence = codes "->" ∷ []

-- What a definition runs: the keys of its task and of its pipeline.
pub record Target : Type 0 where
  pub task : Option Text
  pub pipeline : Option Text

-- Finding it sets the generator, too.
unfoldable pub find_target :
    PipelineDefinition → Config → Result StageBuildFailure (Config × Target)
find_target def cfg =
    if is_empty def.task
    then elim (lookup def.pipeline cfg.pipelines) [
      | none ↦ err (no_such_pipeline def.pipeline)
      | some g ↦ ok (
        record cfg {
          pipelines = insert def.pipeline (record g { generator = def.generator }) cfg.pipelines;
        },
        record { task = none; pipeline = some def.pipeline },
      )
    ]
    else elim (lookup def.task cfg.tasks) [
      | none ↦ err (no_such_task def.task)
      | some t ↦ ok (
        record cfg { tasks = insert def.task (record t { generator = def.generator }) cfg.tasks },
        record { task = some def.task; pipeline = none },
      )
    ]

-- A pipeline under a name of its own.
unfoldable pub is_aliased : PipelineDefinition → Target → Bool
is_aliased def target = elim target.pipeline [
  | none ↦ false
  | some p ↦
      if is_empty def.name then false else if text_eq def.pipeline def.name then false else true
]

-- `stagePipeline.WithAlias`
unfoldable pub set_alias : PipelineDefinition → Target → Config → Config
set_alias def target cfg =
    if is_aliased def target
    then elim (lookup def.pipeline cfg.pipelines) [
      | none ↦ cfg
      | some g ↦ record cfg {
        pipelines = insert def.pipeline (record g { alias = def.pipeline }) cfg.pipelines;
      }
    ]
    else cfg

unfoldable pub make_stage : PipelineDefinition → Target → Stage
make_stage def target =
    let made = new_stage def.name (λ s. record s {
      condition = def.condition;
      task = target.task;
      pipeline = target.pipeline;
      depends_on = def.depends_on;
      dir = def.dir;
      allow_failure = def.allow_failure;
      generator = def.generator;
    }) in
    let named = if is_aliased def target then record made { alias = def.pipeline } else made in
    let vars = set (from_vars_map def.variables) (codes ".Stage.Name") (str def.name) in
    with_variables (with_envfile (with_env named (from_map def.env)) def.envfile) vars

-- `stage.Task.Dir = stage.Dir`, which every stage of that task sees.
unfoldable pub set_dir : PipelineDefinition → Target → Config → Result StageBuildFailure Config
set_dir def target cfg = if is_empty def.dir then ok cfg else elim target.task [
  | none ↦ err nil_dereference
  | some key ↦ elim (lookup key cfg.tasks) [
    | none ↦ err nil_dereference
    | some t ↦ ok (record cfg { tasks = insert key (record t { dir = def.dir }) cfg.tasks })
  ]
]

-- The name of a stage: its own, or its pipeline's, or its task's.
unfoldable pub stage_name : PipelineDefinition → Text
stage_name def =
    if is_empty def.name then if is_empty def.pipeline then def.task else def.pipeline else def.name

-- The stage goes into the graph, unless its name is refused.
unfoldable pub enter_stage :
    PipelineDefinition → Stage → ExecutionGraph → Result StageBuildFailure ExecutionGraph
enter_stage def stage g =
    if is_empty stage.name
    then err (must_have_name def.task)
    else if elem stage.name forbidden_char_sequence
    then err (forbidden_name stage.name)
    else if has stage.name g.nodes
    then err (same_name stage.name)
    else let (g', fault) = add_stage stage g in
      elim fault [ none ↦ ok g' | some e ↦ err (graph_fault e) ]

-- One round of the loop; `key` holds the graph.
unfoldable pub build_stage : Text → PipelineDefinition → Config → Result StageBuildFailure Config
build_stage key def cfg = do
  (found, target) ← find_target def cfg
  placed ← set_dir def target (set_alias def target found)
  let stage = record (make_stage def target) { name = stage_name def }
  elim (lookup key placed.pipelines) [
    | none ↦ err nil_dereference
    | some g ↦ do
      g' ← enter_stage def stage g
      ok (record placed { pipelines = insert key g' placed.pipelines })
  ]

unfoldable pub build_stages :
    Text → List PipelineDefinition → Config → Result StageBuildFailure Config
build_stages key [] cfg = ok cfg
build_stages key (def ∷ defs) cfg = do cfg' ← build_stage key def cfg; build_stages key defs cfg'

-- The first dependency that is no node.
unfoldable pub first_missing : ExecutionGraph → List Text → Option Text
first_missing g [] = none
first_missing g (d ∷ deps) = if has d g.nodes then first_missing g deps else some d

-- The walk over the nodes, in the order of `nodes`, with the names that start the pipeline.
unfoldable pub walk_nodes :
    ExecutionGraph → List Stage → List Text → Result StageBuildFailure (List Text)
walk_nodes g [] root_nodes = ok root_nodes
walk_nodes g (s ∷ ss) root_nodes = elim s.depends_on [
  | [] ↦ walk_nodes g ss (root_nodes ++ s.name ∷ [])
  | d ∷ ds ↦ elim (first_missing g (d ∷ ds)) [
    | none ↦ walk_nodes g ss root_nodes
    | some dep ↦ err (missing_dependency s.name dep)
  ]
]

unfoldable pub check_nodes : ExecutionGraph → List Stage → Result StageBuildFailure (Unit {0})
check_nodes g order = do
  root_nodes ← walk_nodes g order []
  elim root_nodes [ [] ↦ err (no_starting_point g.name) | n ∷ ns ↦ ok tt ]

-- `range` is the order in which the runtime ranges over the nodes.
unfoldable pub build_pipeline :
    (Map Stage → List Stage)
    → Text
    → List PipelineDefinition
    → Config
    → Result StageBuildFailure Config
build_pipeline range key defs cfg = do
  cfg' ← build_stages key defs cfg
  elim (lookup key cfg'.pipelines) [
    | none ↦ err nil_dereference
    | some g ↦ do _ ← check_nodes g (range g.nodes); ok cfg'
  ]
