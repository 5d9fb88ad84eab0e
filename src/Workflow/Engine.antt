-- ===== src/Workflow/Engine.antt =====
-- src/mellivor_kernel/workflow/engine.py: WorkflowEngine
pub mod Loop
pub mod Updates
pub mod Steps
pub mod Outcome
pub mod Growth
pub mod Dependable
pub mod Outcomes
pub mod Run
use mellivor_kernel.Prelude.{
  ℕ, zero, suc, ℤ, pos, negsuc, String, Bool, true, false, not, ◌&&◌, Option, none, some, List, [],
  ◌∷◌, ◌++◌, Dict, get, put, length, ltb, if◌then◌else◌,
}
use mellivor_kernel.Python.{
  Text, lit, quoted, num, number_pieces, str, bool, int, text_or, Exception, Result, returned,
  raised, error, workflow_error, other_error, Action, pure, raise, lift, attempt, ◌>>=◌, ◌>>◌,
}
use mellivor_kernel.World.{
  World, Call, call, EventBus, publish, clock_read, resolver_called, add_quietly,
}
use mellivor_kernel.Events.Event.{Event, workflow_started, workflow_completed, workflow_failed}
use mellivor_kernel.Memory.Entry.{MemoryEntry, make_entry}
use mellivor_kernel.Execution.Request.{ExecutionRequest}
use mellivor_kernel.Execution.Result.{ExecutionResult, make_result}
use mellivor_kernel.Execution.Dispatch.{failed}
use mellivor_kernel.Execution.Engine.{ExecutionEngine, execute, error_pieces}
use mellivor_kernel.Workflow.Definition.{
  WorkflowStep, WorkflowDefinition, Workflow, WorkflowResult, make_workflow_result,
}
use mellivor_kernel.Workflow.Options.{
  Datetime, WorkflowContext, Candidate, a_request, another, Resolver, callable, not_callable,
  WorkflowExecutionOptions, default_options, make_options, validate_options,
}
use mellivor_kernel.Workflow.Units.{
  group_into_units, is_explicitly_parallel, first_stopping_failure,
}
use mellivor_kernel.Workflow.Pool.{Pool, Move, run_parallel_group}

-- `schedule` is the order in which the threads of a parallel group get on.
pub record WorkflowEngine (E : Type 0) : Type 0 where
  pub execution_engine : ExecutionEngine E
  pub memory : Option (MemoryEntry → Call E Unit)
  pub event_bus : Option (EventBus E)
  pub max_concurrency : Option ℤ
  pub clock : Call E Datetime
  pub schedule : Pool E → Move

abbrev is_positive : ℤ → Bool
is_positive (pos zero) = false
is_positive (pos (suc n)) = true
is_positive (negsuc n) = false

-- `__init__`
unfoldable pub make_engine : {E : Type 0} → WorkflowEngine E → Result (WorkflowEngine E)
make_engine engine = elim engine.max_concurrency [
  | none ↦ returned engine
  | some n ↦
      if not (is_positive n)
      then raised (
          error workflow_error (
            lit "max_concurrency must be positive if given, got "
            ∷ (number_pieces n ++ lit "." ∷ [])))
      else returned engine
]

abbrev same_bool : Bool → Bool → Bool
same_bool true b = b
same_bool false b = not b

-- `now < not_before`; times with and without a zone do not compare.
unfoldable pub is_before : Datetime → Datetime → Result Bool
is_before now not_before =
    if same_bool now.is_aware not_before.is_aware
    then returned (ltb now.instant not_before.instant)
    else raised
        (error other_error (lit "can't compare offset-naive and offset-aware datetimes" ∷ []))

abbrev pub not_due : WorkflowStep → Datetime → Datetime → ExecutionResult
not_due step not_before now =
    failed
      (lit "Step "
        ∷ quoted step.name
        ∷ lit " is not yet due to run (not_before="
        ∷ lit not_before.isoformat
        ∷ lit ", now="
        ∷ lit now.isoformat
        ∷ lit ")."
        ∷ [])
      (pos 0) (("stage", str (lit "scheduling" ∷ [])) ∷ [])

abbrev pub unresolved : Text → ExecutionResult
unresolved message = failed message (pos 0) (("stage", str (lit "dynamic_request" ∷ [])) ∷ [])

-- A call of a resolver.
abbrev pub resolve :
    {E : Type 0} → Resolver E → WorkflowContext → ExecutionRequest → Call E Candidate
resolve (callable f) context request env = f context request env
resolve (not_callable class_name) context request env =
    (raised (error other_error (quoted class_name ∷ lit " object is not callable" ∷ [])), env)

module _ {E : Type 0} (engine : WorkflowEngine E) where
  -- The request goes to the execution engine.
  unfoldable pub delegate : WorkflowStep → ExecutionRequest → Action (World E) ExecutionResult
  delegate step request = execute engine.execution_engine request step.granted_permissions

  -- The code behind the call of a resolver.
  unfoldable pub after_resolver : WorkflowStep → Result Candidate → Action (World E) ExecutionResult
  unfolding delegate
  after_resolver step (raised e) = lift (
      make_result (
        unresolved (
          lit "Dynamic request resolution failed for step "
          ∷ quoted step.name
          ∷ lit ": "
          ∷ e.message)))
  after_resolver step (returned (another class_name)) = lift (
      make_result (
        unresolved (
          lit "Step "
          ∷ quoted step.name
          ∷ lit "'s request resolver returned "
          ∷ lit class_name
          ∷ lit ", expected ExecutionRequest."
          ∷ [])))
  after_resolver step (returned (a_request request)) = delegate step request

  -- The code behind the scheduling guard.
  unfoldable pub resolve_and_delegate :
      WorkflowStep → WorkflowContext → Option (Resolver E) → Action (World E) ExecutionResult
  unfolding after_resolver
  resolve_and_delegate step context none = delegate step step.request
  resolve_and_delegate step context (some resolver) = do
    candidate ← attempt (call (resolver_called step.name) (resolve resolver context step.request))
    after_resolver step candidate

  unfoldable pub guard_time :
      WorkflowStep
      → Datetime
      → Option Datetime
      → Action (World E) ExecutionResult
      → Action (World E) ExecutionResult
  unfolding is_before
  guard_time step now none go_on = go_on
  guard_time step now (some not_before) go_on = do
    early ← lift (is_before now not_before)
    if early then lift (make_result (not_due step not_before now)) else go_on

  -- _resolve_and_execute_step
  unfoldable pub resolve_and_execute_step :
      WorkflowContext → WorkflowExecutionOptions E → WorkflowStep → Action (World E) ExecutionResult
  unfolding guard_time resolve_and_delegate
  resolve_and_execute_step context options step = do
    now ← call clock_read engine.clock
    guard_time step now (get step.name options.not_before)
        (resolve_and_delegate step context (get step.name options.request_resolvers))

  abbrev pub workers_for : List WorkflowStep → ℕ
  workers_for group = elim engine.max_concurrency [
    | none ↦ length group
    | some (pos n) ↦ n
    | some (negsuc n) ↦ 0
  ]

  abbrev pub run_group :
      List WorkflowStep
      → WorkflowContext
      → WorkflowExecutionOptions E
      → Action (World E) (Dict ExecutionResult)
  run_group group context options =
      run_parallel_group (resolve_and_execute_step context options) (workers_for group)
        engine.schedule group

  -- _run_unit
  unfoldable pub run_unit :
      List WorkflowStep
      → WorkflowContext
      → WorkflowExecutionOptions E
      → Action (World E) (Dict ExecutionResult)
  unfolding resolve_and_execute_step run_parallel_group
  run_unit (step ∷ []) context options =
      if not (is_explicitly_parallel step.name options.parallel_groups)
      then (do
        result ← resolve_and_execute_step context options step
        pure ((step.name, result) ∷ []))
      else run_group (step ∷ []) context options
  run_unit unit context options = run_group unit context options
