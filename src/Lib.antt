-- ===== src/Lib.antt =====
-- A model of eirctl, a task and pipeline runner, with the theorems that make its core correct.
--
-- The parts and their files:
-- - Prelude: text as bytes, Go maps as association lists, results, lists and their lemmas.
-- - Variables (variables/variables.go): the container of variables and environments.
-- - Envfile (internal/utils/utils.go): the envfile record; EnvLines: environments as lines,
--   `ConvertEnv` and `ConvertFromEnv`; Base62: `EncodeBase62` and `DecodeBase62`.
-- - Task (task/task.go): the record of a task and its required inputs.
-- - Stage (scheduler/stage.go): the node of a graph, its status and the sort order.
-- - Search: the depth-first search of `cycleDfs`, over any successor function, with its
--   soundness, completeness and fuel; Graph (scheduler/graph.go): construction and lookups.
-- - Waves: `BFSNodesFlattened`.
-- - Schedule (scheduler/scheduler.go): `Schedule` as a step function over a list of events.
-- - Runner (runner/runner.go): the loop of `execute` over the jobs of a task; Runner.Compile
--   (runner/compiler.go): the jobs of its variations and commands.
-- - Config.Pipeline (internal/config/pipeline.go): `buildPipeline`, which turns the definitions of
--   a pipeline into stages and adds them to the graph with `AddStage`; what it builds is a graph
--   that Schedule starts from.
-- - Config.ContainerArgs, Config.ContextEnvfile (internal/config/context.go): the arguments and
--   the envfile of a context; Context (runner/context.go): `ProcessEnvfile`, which selects the
--   variables that reach a command, and the commands around a context's use.
-- - Config.Definitions (internal/config/definitions.go): the configuration as files declare it.
-- - Loader (internal/config/loader.go, cache.go): Store: imported files and their hashes; Sources:
--   the cache, URLs, repositories and files; Merge: `mergeExistingWithImported`; Imports: the
--   recursion of `load`, `parseImports` and `loadDir`; Default: `ResolveDefaultConfigFile`.
--   Imported files go below the loader's directory, or, from the cache, below the one in which the
--   loader was made; readers may break and copies fail on the way.
-- - Strings: functions of Go's `strings`. Github (internal/schema/github.go): the data of a GitHub
--   workflow.
-- - Policy (scripts/check-workflow-policy/main.go): the security policy for the repository's own
--   workflows. Steps: what a step does; Events: the events that reach a workflow through reusable
--   calls; Authority: what a job may do; Permitted: the table of permissions; Flow: the checks in
--   their order; Topology: the checks of single workflows.
-- - Materialize (scripts/materialize-sonar-source/main.go): the selection of files from a git tree.
--
-- Choices. A map of Go is an association list with distinct keys; where the source ranges over
-- it, the list's order is the order that the runtime chose, or the order is a parameter. Tasks and
-- pipelines are pointers in the source, and here the keys under which the configuration holds
-- them. A panic of the runtime is an error of its own. Regular expressions, the printing of
-- values, the reading and copying of files and the shell are parameters, and the messages that
-- errors gain on their way are left out; case is that of ASCII.
-- Fuel: the depth-first search gets as much as there are names in the graph, and each call visits
-- a new one; the breadth-first search gets as much, and each round takes a node that was queued
-- once; the digits of a number get the number itself, and each round divides by the base. The
-- rounds over reusable calls get one more than the product of calls and declared events, and each
-- but the last brings a workflow an event that it had not. A load gets fuel for the depth of its
-- imports; if finitely many sources can be reached, their number is enough, and without such a
-- bound a load need not end. The search for a default file gets the length of the directory and
-- one more, since a parent is shorter. No other fuel runs out.
--
-- Not modelled: times, logging, the executors (shell and container), YAML, templates, `Load`
-- around the recursion over imports, denormalization of nested pipelines, the generation of CI
-- files, output, watchers, the command line.
pub mod Materialize
pub mod Prelude
pub mod Search
pub mod Variables
pub mod Envfile
pub mod Stage
pub mod Graph
pub mod Waves
pub mod Schedule
pub mod Task
pub mod Config
pub mod EnvLines
pub mod Context
pub mod Runner
pub mod Base62
pub mod Strings
pub mod Github
pub mod Loader
pub mod Policy
