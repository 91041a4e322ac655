-- ===== src/Schedule/Tests.antt =====
-- A run of the scheduler on a small graph.
use eirctl.Prelude.{◌≡◌, refl, List, [], ◌∷◌, none, some, Text, codes, inl, arith, elem, All}
use eirctl.Stage.{new_stage}
use eirctl.Graph.{root_node_name}
use eirctl.Graph.Tests.{construction, made, pipeline, new_execution_graph-pipeline}
use eirctl.Schedule.{
  World, Event, round, sleep, visit, check, succeed, meets, all_done, covers, is_order, start_round,
  start_check, visit_stage, check_parent, end_check, step, run, start,
}
use eirctl.Schedule.Invariant.{Settled}
use eirctl.Schedule.Ready.{IsReady, IsFresh, new_execution_graph-IsReady}
use eirctl.Schedule.Runs.{run_dependencies}

abbrev order : List Text
order = root_node_name ∷ codes "build" ∷ codes "test" ∷ codes "deploy" ∷ []

-- The first round starts the build; when that is done, the second starts the test.
abbrev events : List Event
events =
    round order
    ∷ visit meets []
    ∷ visit meets (root_node_name ∷ [])
    ∷ check
    ∷ check
    ∷ visit meets (codes "build" ∷ [])
    ∷ check
    ∷ check
    ∷ visit meets (codes "test" ∷ codes "build" ∷ [])
    ∷ check
    ∷ check
    ∷ check
    ∷ sleep
    ∷ succeed (codes "build")
    ∷ round order
    ∷ visit meets []
    ∷ visit meets []
    ∷ visit meets (codes "build" ∷ [])
    ∷ check
    ∷ check
    ∷ []

unfoldable scheduling : Unit {0}
unfolding construction run step start all_done covers is_order start_round start_check visit_stage
    check_parent end_check elem
scheduling = tt

abbrev testing : World
unfolding scheduling
testing = elim (run made events (start made)) [ none ↦ start made | some w ↦ w ]

run-events : run made events (start made) ≡ some testing
unfolding scheduling
run-events = refl

pipeline-IsFresh : All IsFresh pipeline
unfolding new_stage
pipeline-IsFresh = ((ground arith, refl), ((ground arith, refl), ((ground arith, refl), tt)))

made-IsReady : IsReady made
made-IsReady =
    new_execution_graph-IsReady (codes "ci") pipeline made pipeline-IsFresh
      new_execution_graph-pipeline

run_dependencies_example : Settled made testing.status (codes "build")
run_dependencies_example =
    run_dependencies made events testing (codes "test") (codes "build") made-IsReady run-events
      (unfold scheduling in inl refl) (unfold scheduling in inl refl)
