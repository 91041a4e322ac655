-- ===== src/Loader/Merge.antt =====
-- `mergeExistingWithImported`: the tasks, pipelines and contexts of an import are added to those
-- that are there, and none may be there already.
use eirctl.Prelude.{
  List, [], ◌∷◌, Text, codes, Map, has, insert, Result, ok, err, ◌>>=◌, if◌then◌else◌, map,
}
use eirctl.Config.Pipeline.{PipelineDefinition}
use eirctl.Config.Definitions.{ConfigDefinition, TaskDefinition, ContextDefinition}
use eirctl.Loader.{LoadFault, clash}

-- One of the three loops, with what an imported value is enriched with.
unfoldable pub merge_kind :
    {V : Type 0} → (kind path : Text) → (V → V) → Map V → Map V → Result LoadFault (Map V)
merge_kind kind path enrich [] base = ok base
merge_kind kind path enrich ((name, val) ∷ imported) base =
    let rest = merge_kind kind path enrich imported (insert name (enrich val) base) in
    if has name base then err (clash kind path name) else rest

abbrev pub task_from : Text → TaskDefinition → TaskDefinition
task_from path task = record task { source_file = path }

abbrev pub stage_from : Text → PipelineDefinition → PipelineDefinition
stage_from path stage = record stage { source_file = path }

abbrev pub pipeline_from : Text → List PipelineDefinition → List PipelineDefinition
pipeline_from path stages = map (stage_from path) stages

abbrev pub context_from : Text → ContextDefinition → ContextDefinition
context_from path context = record context { source_file = path }

unfoldable pub merge_existing_with_imported :
    (base imported : ConfigDefinition) → Text → Result LoadFault ConfigDefinition
merge_existing_with_imported base imported path = do
  tasks ← merge_kind (codes "task") path (task_from path) imported.tasks base.tasks
  pipelines ←
      merge_kind (codes "pipeline") path (pipeline_from path) imported.pipelines base.pipelines
  contexts ← merge_kind (codes "context") path (context_from path) imported.contexts base.contexts
  ok (record base { tasks = tasks; pipelines = pipelines; contexts = contexts })
