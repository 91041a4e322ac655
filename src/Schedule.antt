-- ===== src/Schedule.antt =====
-- scheduler/scheduler.go: the loop of `Schedule` and the goroutines that it starts. A run is a
-- list of events; each is one atomic read or write of the shared statuses, so the events of the
-- loop and of the goroutines interleave freely. What a condition or a stage results in, the
-- order in which Go ranges over a map, and a call of `Cancel` from outside are chosen by the
-- events. Not modelled: times, and that `Cancel` waits for the task runner.
pub mod Invariant
pub mod Safety
pub mod Steps
pub mod Ready
pub mod Runs
pub mod Tests
use eirctl.Prelude.{
  Bool, true, false, not, ◌&&◌, List, [], ◌∷◌, ◌++◌, Option, none, some, Text, text_eq, elem, keys,
  lookup, if◌then◌else◌,
}
use eirctl.Stage.{Status, Stage}
use eirctl.Graph.{ExecutionGraph, parents_of}

-- Where a stage's goroutine is: not started or returned, running the stage, after the status was
-- set to error, or after the error was stored of a stage that may fail.
pub data Phase : Type 0 where
  idle executing failed stored : Phase

-- Where the loop is: at its head, in a round over the nodes, in the check of a stage's parents
-- with those that are left and whether all so far were ready, behind the loop, or after a read
-- through a nil pointer.
pub data Place : Type 0 where
  head : Place
  visiting : List Text → Place
  checking : Text → List Text → Bool → List Text → Place
  behind : Place
  crashed : Place

pub record World : Type 0 where
  pub status : Text → Status
  pub phase : Text → Phase
  pub errors : List Text
  pub cancelled : Bool
  pub place : Place

-- What the condition of a stage evaluates to.
pub data Condition : Type 0 where
  meets fails broken : Condition

pub data Event : Type 0 where
  round : (order : List Text) → Event
  sleep : Event
  visit : Condition → (order : List Text) → Event
  check : Event
  succeed fail store recover : Text → Event
  cancel : Event

abbrev pub update {ℓ} : {A : Type ℓ} → Text → A → (Text → A) → Text → A
update n a f m = if text_eq n m then a else f m

abbrev pub is_open : Status → Bool
is_open Status.waiting = true
is_open Status.running = true
is_open _ = false

-- `isDone`
unfoldable pub all_done : List Text → (Text → Status) → Bool
all_done [] status = true
all_done (n ∷ ns) status = not (is_open (status n)) && all_done ns status

unfoldable pub covers : List Text → List Text → Bool
covers [] ys = true
covers (x ∷ xs) ys = elem x ys && covers xs ys

-- `order` ranges over the members of `xs`.
unfoldable pub is_order : List Text → List Text → Bool
is_order order xs = covers order xs && covers xs order

unfoldable pub start_round : ExecutionGraph → List Text → World → Option World
start_round g order w =
    if all_done (keys g.nodes) w.status
    then some (record w { place = behind })
    else if w.cancelled
    then some (record w { place = behind })
    else if is_order order (keys g.nodes)
    then some (record w { place = visiting order })
    else none

-- `checkStatus` begins: the parents are read in some order.
unfoldable pub start_check :
    ExecutionGraph → Text → Stage → List Text → List Text → World → Option World
start_check g n s order todo w =
    if is_order order (parents_of g s.name)
    then some (record w { place = checking n order true todo })
    else none

-- One stage of a round: a stage that is not waiting is passed over; then its condition.
unfoldable pub visit_stage :
    ExecutionGraph → Text → Stage → Condition → List Text → List Text → World → Option World
visit_stage g n s outcome order todo w =
    let next = record w { place = visiting todo } in
    let begin = start_check g n s order todo w in
    elim (w.status n) [
      | Status.waiting ↦ elim s.condition [
        | [] ↦ begin
        | c ∷ cs ↦ elim outcome [
          | broken ↦
              some (record next { status = update n Status.error w.status; cancelled = true })
          | fails ↦ some (record next { status = update n Status.skipped w.status })
          | meets ↦ begin
        ]
      ]
      | _ ↦ some next
    ]

-- The status of one parent is read.
unfoldable pub check_parent :
    ExecutionGraph → Text → Text → List Text → Bool → List Text → World → World
check_parent g n p ps ready todo w =
    let go_on = record w { place = checking n ps ready todo } in
    let not_ready = record w { place = checking n ps false todo } in
    let cancel_stage = record not_ready { status = update n Status.canceled w.status } in
    elim (lookup p g.nodes) [
      | none ↦ record w { place = crashed }
      | some parent ↦ elim (w.status p) [
        | Status.done ↦ go_on
        | Status.skipped ↦ go_on
        | Status.error ↦ if parent.allow_failure then go_on else cancel_stage
        | Status.canceled ↦ cancel_stage
        | Status.waiting ↦ not_ready
        | Status.running ↦ not_ready
      ]
    ]

-- All parents are read: the stage is started if they are ready.
unfoldable pub end_check : Text → Bool → List Text → World → World
end_check n ready todo w =
    let next = record w { place = visiting todo } in
    if ready
    then record next {
      status = update n Status.running w.status;
      phase = update n executing w.phase;
    }
    else next

abbrev pub allows : ExecutionGraph → Text → Bool
allows g n = elim (lookup n g.nodes) [ none ↦ false | some s ↦ s.allow_failure ]

-- The goroutine of a stage goes on, if it is where the event supposes it to be.
abbrev pub at_phase : Phase → Text → World → World → Option World
at_phase executing n w w' = elim (w.phase n) [ executing ↦ some w' | _ ↦ none ]
at_phase failed n w w' = elim (w.phase n) [ failed ↦ some w' | _ ↦ none ]
at_phase stored n w w' = elim (w.phase n) [ stored ↦ some w' | _ ↦ none ]
at_phase idle n w w' = none

unfoldable pub step : ExecutionGraph → Event → World → Option World
step g (round order) w = elim w.place [ head ↦ start_round g order w | _ ↦ none ]
step g sleep w = elim w.place [ visiting [] ↦ some (record w { place = head }) | _ ↦ none ]
step g (visit outcome order) w = elim w.place [
  | visiting (n ∷ todo) ↦ elim (lookup n g.nodes) [
    | none ↦ none
    | some s ↦ visit_stage g n s outcome order todo w
  ]
  | _ ↦ none
]
step g check w = elim w.place [
  | checking n [] ready todo ↦ some (end_check n ready todo w)
  | checking n (p ∷ ps) ready todo ↦ some (check_parent g n p ps ready todo w)
  | _ ↦ none
]
step g (succeed n) w =
    at_phase executing n w
      (record w { status = update n Status.done w.status; phase = update n idle w.phase })
step g (fail n) w =
    at_phase executing n w
      (record w { status = update n Status.error w.status; phase = update n failed w.phase })
step g (store n) w = at_phase failed n w (record w {
  errors = w.errors ++ n ∷ [];
  phase = update n (if allows g n then stored else idle) w.phase;
})
step g (recover n) w =
    at_phase stored n w
      (record w { status = update n Status.done w.status; phase = update n idle w.phase })
step g cancel w = some (record w { cancelled = true })

unfoldable pub run : ExecutionGraph → List Event → World → Option World
run g [] w = some w
run g (e ∷ es) w = elim (step g e w) [ none ↦ none | some w' ↦ run g es w' ]

-- The scheduler starts with the statuses of the nodes.
unfoldable pub start : ExecutionGraph → World
start g = record {
  status = λ n. elim (lookup n g.nodes) [ none ↦ Status.waiting | some s ↦ s.status ];
  phase = λ _. idle;
  errors = [];
  cancelled = false;
  place = head;
}
