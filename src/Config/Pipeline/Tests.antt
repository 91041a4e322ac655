-- ===== src/Config/Pipeline/Tests.antt =====
-- Small pipelines, and the theorem about them on one.
use eirctl.Prelude.{
  ◌≡◌, refl, false, List, [], ◌∷◌, none, some, Text, codes, In, arith, ok, err, keys, lookup,
  insert, has, elem, Map, map, Distinct, All, insert_all, text_eq_iff,
}
use eirctl.Variables.{from_map, from_vars_map, set, merge, new_variables, to_map, str_values}
use eirctl.Task.{new_task}
use eirctl.Stage.{Stage, with_env, with_envfile, with_variables}
use eirctl.Search.Walks.{IsAcyclic}
use eirctl.Graph.{ExecutionGraph, children_of, root_node_name, rooted}
use eirctl.Graph.Tests.{construction}
use eirctl.Schedule.Ready.{IsReady}
use eirctl.Strings.{is_empty}
use eirctl.Config.Pipeline.{
  PipelineDefinition, Config, find_target, set_alias, set_dir, make_stage, stage_name, enter_stage,
  build_stage, build_stages, is_aliased, first_missing, walk_nodes, check_nodes, build_pipeline,
  nil_dereference, missing_dependency, same_name,
}
use eirctl.Config.Pipeline.Valid.{build_pipeline_sound}

-- What a run of the construction computes with.
unfoldable building : Unit {0}
unfolding construction build_pipeline check_nodes walk_nodes first_missing build_stages build_stage
    enter_stage stage_name set_dir make_stage is_aliased set_alias find_target is_empty
    with_variables with_envfile with_env set from_map str_values from_vars_map merge to_map
    insert_all insert has elem new_variables new_task
building = tt

-- The nodes in the order of the list.
abbrev values : Map Stage → List Stage
values [] = []
values ((n, s) ∷ m) = s ∷ values m

In-values : (m : Map Stage) (n : Text) (s : Stage) → lookup n m ≡ some s → In s (values m)
unfolding lookup
In-values [] n s e = absurd (cc)
In-values ((k, t) ∷ m) n s e = ground (arith, text_eq_iff k n, In-values m n s)

abbrev definition : Text → Text → Text → List Text → PipelineDefinition
definition name task pipeline deps = record {
  source_file = [];
  name = name;
  condition = [];
  task = task;
  pipeline = pipeline;
  depends_on = deps;
  allow_failure = false;
  dir = [];
  env = [];
  envfile = none;
  variables = [];
  generator = [];
}

abbrev config : Config
config = record {
  tasks = (codes "lint", new_task (codes "lint")) ∷ (codes "test", new_task (codes "test")) ∷ [];
  pipelines = (codes "ci", rooted (codes "ci")) ∷ (codes "pack", rooted (codes "pack")) ∷ [];
}

abbrev lint : PipelineDefinition
lint = definition [] (codes "lint") [] []

abbrev test : PipelineDefinition
test = definition (codes "unit") (codes "test") [] (codes "lint" ∷ [])

abbrev pack : PipelineDefinition
pack = definition [] [] (codes "pack") (codes "unit" ∷ codes "lint" ∷ [])

abbrev ci : List PipelineDefinition
ci = lint ∷ test ∷ pack ∷ []

abbrev built : Config
unfolding building
built = elim (build_pipeline values (codes "ci") ci config) [ ok cfg ↦ cfg | err e ↦ config ]

build_pipeline-ci : build_pipeline values (codes "ci") ci config ≡ ok built
unfolding building
build_pipeline-ci = refl

build_pipeline_missing :
    build_pipeline values (codes "ci") (lint ∷ pack ∷ []) config
    ≡ err (missing_dependency (codes "pack") (codes "unit"))
unfolding building
build_pipeline_missing = refl

build_pipeline_twice :
    build_pipeline values (codes "ci") (lint ∷ lint ∷ []) config ≡ err (same_name (codes "lint"))
unfolding building
build_pipeline_twice = refl

abbrev node_names : Map ExecutionGraph → List (List Text)
node_names [] = []
node_names ((key, g) ∷ m) = keys g.nodes ∷ node_names m

-- A name that only contains the separator is taken.
build_pipeline_separator :
    node_names
      (elim (build_pipeline values
        (codes "ci")
        (definition (codes "a->b") (codes "lint") [] [] ∷ [])
        config) [ ok cfg ↦ cfg.pipelines | err e ↦ [] ])
    ≡ (codes "root" ∷ codes "a->b" ∷ []) ∷ (codes "root" ∷ []) ∷ []
unfolding building
build_pipeline_separator = refl

-- A stage that runs a pipeline may not have a directory.
build_pipeline_dir :
    build_pipeline values (codes "ci") ((record pack { dir = codes "src" }) ∷ []) config
    ≡ err nil_dereference
unfolding building
build_pipeline_dir = refl

build_pipeline_sound_example :
    (g : ExecutionGraph) × (lookup (codes "ci") built.pipelines ≡ some g)
    × (keys g.nodes ≡ root_node_name ∷ map stage_name ci)
    × Distinct (keys g.nodes)
    × IsAcyclic (children_of g)
    × IsReady g
    × ((n : Text) (s : Stage)
        → lookup n g.nodes ≡ some s
        → All (λ d. In d (keys g.nodes)) s.depends_on)
build_pipeline_sound_example =
    build_pipeline_sound values In-values (codes "ci") (codes "ci") ci config built
      (unfold building in refl) build_pipeline-ci
