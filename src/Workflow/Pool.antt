-- ===== src/Workflow/Pool.antt =====
-- src/mellivor_kernel/workflow/engine.py, `_run_parallel_group`: the futures of one parallel group in
-- a ThreadPoolExecutor, whose threads get on in any order. A step runs as one action: the calls
-- that two running steps make do not mix.
pub mod Moves
pub mod Ends
pub mod Account
pub mod Stops
pub mod Complete
use mellivor_kernel.Prelude.{
  ℕ, zero, suc, ◌*◌, String, Bool, true, false, not, ◌&&◌, Option, none, some, List, [], ◌∷◌, ◌++◌,
  Dict, get, put, length, ltb, is_nil, if◌then◌else◌,
}
use mellivor_kernel.Python.{
  lit, num, Exception, Result, returned, raised, error, other_error, Action,
}
use mellivor_kernel.World.{World}
use mellivor_kernel.Execution.Result.{ExecutionResult}
use mellivor_kernel.Workflow.Definition.{WorkflowStep}
use mellivor_kernel.Workflow.Units.{is_stopping}

-- The states of the futures: waiting for a thread, running, finished but not yielded by
-- `as_completed` yet, and cancelled; and the three variables of the loop.
pub record Pool (E : Type 0) : Type 0 where
  pub waiting : List WorkflowStep
  pub running : List WorkflowStep
  pub finished : List (WorkflowStep × Result ExecutionResult)
  pub cancelled : List WorkflowStep
  pub completed : Dict ExecutionResult
  pub raised_by : Dict Exception
  pub is_stopped : Bool
  pub world : World E

-- A thread takes the first waiting future, a thread ends the running step at an index, or the loop
-- gets the finished future at an index.
pub data Move : Type 0 where
  begin : Move
  end yield : ℕ → Move

-- The element at an index, and the others.
unfoldable pub take_out {ℓ} : {A : Type ℓ} → ℕ → List A → Option (A × List A)
take_out i [] = none
take_out zero (x ∷ xs) = some (x, xs)
take_out (suc i) (x ∷ xs) = elim (take_out i xs) [ none ↦ none | some (y, ys) ↦ some (y, x ∷ ys) ]

abbrev pub is_over : {E : Type 0} → Pool E → Bool
is_over pool = is_nil pool.waiting && is_nil pool.running && is_nil pool.finished

abbrev pub or_else {ℓ} : {A : Type ℓ} → Option A → A → A
or_else none default = default
or_else (some a) default = a

-- `_resolve_and_execute_step`, for the group's context and options
abbrev pub StepAction : Type 0 → Type 0
StepAction E = WorkflowStep → Action (World E) ExecutionResult

module _ {E : Type 0} (act : StepAction E) (max_workers : ℕ) where
  -- The body of the `for future in as_completed(…)` loop.
  unfoldable pub collect : WorkflowStep → Result ExecutionResult → Pool E → Pool E
  collect step (raised e) pool = record pool { raised_by = put step.name e pool.raised_by }
  collect step (returned result) pool =
      let kept = record pool { completed = put step.name result pool.completed } in
      if not pool.is_stopped && is_stopping step result
      then record kept {
        is_stopped = true;
        waiting = [];
        cancelled = pool.cancelled ++ pool.waiting;
      }
      else kept

  -- A thread takes the first waiting step, and leaves the others.
  abbrev pub begun : WorkflowStep → List WorkflowStep → Pool E → Pool E
  begun step steps pool = record pool { waiting = steps; running = pool.running ++ step ∷ [] }

  -- A thread ends a running step, and leaves the others.
  abbrev pub ended : WorkflowStep → List WorkflowStep → Pool E → Pool E
  ended step others pool =
      let (outcome, world') = act step pool.world in
      record pool {
        running = others;
        finished = pool.finished ++ (step, outcome) ∷ [];
        world = world';
      }

  unfoldable pub start_first : List WorkflowStep → Pool E → Option (Pool E)
  start_first [] pool = none
  start_first (step ∷ steps) pool =
      if ltb (length pool.running) max_workers then some (begun step steps pool) else none

  unfoldable pub end_step : Option (WorkflowStep × List WorkflowStep) → Pool E → Option (Pool E)
  end_step none pool = none
  end_step (some (step, others)) pool = some (ended step others pool)

  unfoldable pub yield_step :
      Option
        ((WorkflowStep × Result ExecutionResult) × List (WorkflowStep × Result ExecutionResult))
      → Pool E
      → Option (Pool E)
  unfolding collect
  yield_step none pool = none
  yield_step (some ((step, outcome), others)) pool =
      some (collect step outcome (record pool { finished = others }))

  -- A move, if the pool admits it.
  unfoldable pub perform : Move → Pool E → Option (Pool E)
  unfolding start_first end_step yield_step
  perform begin pool = start_first pool.waiting pool
  perform (end i) pool = end_step (take_out i pool.running) pool
  perform (yield i) pool = yield_step (take_out i pool.finished) pool

  -- A move that an unfinished pool with a worker admits.
  abbrev pub some_move : Pool E → Move
  some_move pool =
      if not (is_nil pool.finished)
      then yield 0
      else if not (is_nil pool.running)
      then end 0
      else begin

  -- The threads and the loop in the order of `schedule`: where the pool does not admit the move
  -- that it asks for, they make one that it admits.
  unfoldable pub advance : Move → Pool E → Pool E
  unfolding perform
  advance move pool = or_else (perform move pool) (or_else (perform (some_move pool) pool) pool)

  unfoldable pub drive : (Pool E → Move) → ℕ → Pool E → Pool E
  unfolding advance
  drive schedule zero pool = pool
  drive schedule (suc fuel) pool =
      let rest = drive schedule fuel (advance (schedule pool) pool) in
      if is_over pool then pool else rest

-- All steps are submitted at once.
abbrev pub submitted : {E : Type 0} → List WorkflowStep → World E → Pool E
submitted group w = record {
  waiting = group;
  running = [];
  finished = [];
  cancelled = [];
  completed = [];
  raised_by = [];
  is_stopped = false;
  world = w;
}

-- [raised[step.name] for step in group if step.name in raised], and the same for results by name
unfoldable pub raised_in_order : List WorkflowStep → Dict Exception → List Exception
raised_in_order [] found = []
raised_in_order (step ∷ steps) found =
    let rest = raised_in_order steps found in
    elim (get step.name found) [ none ↦ rest | some e ↦ e ∷ rest ]

unfoldable pub completed_in_order : List WorkflowStep → Dict ExecutionResult → Dict ExecutionResult
completed_in_order [] found = []
completed_in_order (step ∷ steps) found =
    let rest = completed_in_order steps found in
    elim (get step.name found) [ none ↦ rest | some r ↦ (step.name, r) ∷ rest ]

-- `str` of the ExceptionGroup
abbrev exception_group : List Exception → Exception
exception_group es = error other_error (
    num (length es)
    ∷ lit " step(s) in a parallel group raised. ("
    ∷ num (length es)
    ∷ lit " sub-exceptions)"
    ∷ [])

-- The end of `_run_parallel_group`.
unfoldable pub group_outcome :
    List WorkflowStep → List Exception → Dict ExecutionResult → Result (Dict ExecutionResult)
unfolding completed_in_order
group_outcome group [] completed = returned (completed_in_order group completed)
group_outcome group (e ∷ []) completed = raised e
group_outcome group (e ∷ e' ∷ es) completed = raised (exception_group (e ∷ e' ∷ es))

-- Each step begins, ends and is yielded once, so there are three moves for each at most. A pool
-- with no worker is a ValueError.
unfoldable pub run_parallel_group :
    {E : Type 0}
    → StepAction E
    → ℕ
    → (Pool E → Move)
    → List WorkflowStep
    → Action (World E) (Dict ExecutionResult)
unfolding drive raised_in_order group_outcome
run_parallel_group act zero schedule group w = (raised (error other_error []), w)
run_parallel_group act (suc workers) schedule group w =
    let pool = drive act (suc workers) schedule (3 * length group) (submitted group w) in
    (group_outcome group (raised_in_order group pool.raised_by) pool.completed, pool.world)
