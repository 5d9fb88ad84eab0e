-- ===== src/Execution/Engine.antt =====
-- src/mellivor_kernel/execution/engine.py and contracts.py
pub mod Finish
pub mod Closed
pub mod Lifecycle
pub mod Guard
pub mod Denied
pub mod Isolation
pub mod Contract
pub mod Carried
use mellivor_kernel.Prelude.{
  String, Bool, true, false, not, Option, none, some, List, [], ◌∷◌, pos, get, put, Dict,
  if◌then◌else◌,
}
use mellivor_kernel.Python.{
  Payload, Value, none_value, str, bool, ticks, Text, lit, text_or, Result, Action, pure, lift,
  attempt, ◌>>=◌, ◌>>◌,
}
use mellivor_kernel.World.{
  World, Call, call, EventBus, notify, publish, Observation, observed, remembered,
}
use mellivor_kernel.Events.Event.{Event, execution_started, execution_completed, execution_failed}
use mellivor_kernel.Memory.Entry.{MemoryEntry, make_entry}
use mellivor_kernel.Execution.Request.{ExecutionRequest, target_value}
use mellivor_kernel.Execution.Result.{ExecutionResult, make_result}
use mellivor_kernel.Execution.Dispatch.{Dispatcher, failed, dispatch}

-- contracts.py: what the engine reads of an authorizer's decision.
pub record AuthorizationOutcome : Type 0 where
  pub granted : Bool
  pub reason : Option Text

abbrev pub Authorizer : Type 0 → Type 0
Authorizer E = ExecutionRequest → List String → Action (World E) AuthorizationOutcome

-- `render` is `str` of a payload, which runs code that the payload's author wrote.
pub record ExecutionEngine (E : Type 0) : Type 0 where
  pub dispatcher : Dispatcher E
  pub authorizer : Option (Authorizer E)
  pub event_bus : Option (EventBus E)
  pub memory : Option (MemoryEntry → Call E Unit)
  pub observability : Option (Observation → Call E Unit)
  pub render : Payload → Text

-- `result.metadata.get("stage")`, if it is a text
unfoldable pub stage_of : ExecutionResult → Option Text
stage_of result = elim (get "stage" result.metadata) [ some (str t) ↦ some t | _ ↦ none ]

-- An optional text as an `object`.
abbrev pub optional : Option Text → Value
optional none = none_value
optional (some t) = str t

-- `{"target": …, "operation": …, **attributes}`
abbrev pub observation : ExecutionRequest → String → Text → Payload → Observation
observation request name message attributes = record {
  name = name;
  message = message;
  correlation_id = request.request_id;
  attributes =
      ("target", str (lit (target_value request.target) ∷ []))
      ∷ ("operation", str (lit request.operation ∷ []))
      ∷ attributes;
}

abbrev pub started_event : ExecutionRequest → Event
started_event request = execution_started request.request_id request.target request.operation

abbrev pub started_observation : ExecutionRequest → Observation
started_observation request =
    observation request "execution.started"
      (lit "Executing request " ∷ lit request.request_id ∷ lit "." ∷ []) []

-- The event and the observation that close an execution, by its outcome.
abbrev pub terminal_event : ExecutionRequest → ExecutionResult → Event
terminal_event request result =
    if result.success
    then execution_completed request.request_id request.target request.operation
        result.execution_time
    else execution_failed request.request_id request.target request.operation
        (text_or result.error_text []) (stage_of result)

-- `f"…{result.error}"`, which formats a missing error as `None`
abbrev pub error_pieces : Option Text → Text
error_pieces none = lit "None" ∷ []
error_pieces (some t) = t

abbrev pub terminal_observation : ExecutionRequest → ExecutionResult → Observation
terminal_observation request result =
    if result.success
    then observation request "execution.completed"
        (lit "Request " ∷ lit request.request_id ∷ lit " completed successfully." ∷ [])
        (("execution_time_seconds", ticks result.execution_time) ∷ [])
    else observation request "execution.failed"
        (lit "Request " ∷ lit request.request_id ∷ lit " failed: " ∷ error_pieces result.error_text)
        (("error", optional result.error_text) ∷ ("stage", optional (stage_of result)) ∷ [])

-- `metadata={"stage": "authorization", …}`
abbrev pub denial : ExecutionRequest → AuthorizationOutcome → ExecutionResult
denial request outcome =
    failed (text_or outcome.reason (lit "Authorization denied." ∷ [])) (pos 0) (
      ("stage", str (lit "authorization" ∷ []))
      ∷ ("target", str (lit (target_value request.target) ∷ []))
      ∷ [])

module _ {E : Type 0} (engine : ExecutionEngine E) where
  -- `str(result.payload) if result.success and result.payload is not None else result.error`
  unfoldable pub content_of : ExecutionResult → Option Text
  content_of result =
      if result.success
      then elim result.payload [ some p ↦ some (engine.render p) | none ↦ result.error_text ]
      else result.error_text

  unfoldable pub memory_entry : ExecutionRequest → ExecutionResult → MemoryEntry
  unfolding content_of
  memory_entry request result = record {
    id = request.request_id;
    content = text_or (content_of result) (lit "(no content)" ∷ []);
    tags = target_value request.target ∷ [];
    metadata =
        ("operation", str (lit request.operation ∷ [])) ∷ ("success", bool result.success) ∷ [];
  }

  -- `_remember` with a store: what the store raises is logged and dropped.
  remember_in :
      (MemoryEntry → Call E Unit) → ExecutionRequest → ExecutionResult → Action (World E) Unit
  remember_in add request result = do
    entry ← lift (make_entry (memory_entry request result))
    _ ← attempt (call (remembered entry) (add entry))
    pure tt

  unfoldable pub remember : ExecutionRequest → ExecutionResult → Action (World E) Unit
  unfolding remember_in
  remember request result = elim engine.memory [
    | none ↦ pure tt
    | some add ↦ remember_in add request result
  ]

  -- `_finish`
  unfoldable pub finish : ExecutionRequest → ExecutionResult → Action (World E) ExecutionResult
  unfolding remember
  finish request result = do
    publish engine.event_bus (terminal_event request result)
    notify engine.observability observed (terminal_observation request result)
    remember request result
    pure result

  -- The part of `execute` behind the authorization.
  unfoldable pub dispatch_and_finish :
      ExecutionRequest → List String → Action (World E) ExecutionResult
  unfolding finish
  dispatch_and_finish request effective_permissions = do
    result ← dispatch engine.dispatcher request effective_permissions
    finish request result

  unfoldable pub after_decision :
      ExecutionRequest → List String → AuthorizationOutcome → Action (World E) ExecutionResult
  unfolding dispatch_and_finish
  after_decision request granted outcome =
      if not outcome.granted
      then (do result ← lift (make_result (denial request outcome)); finish request result)
      else dispatch_and_finish request granted

  -- The part of `execute` behind the started event: with no authorizer the claimed permissions are
  -- dropped.
  unfoldable pub authorized :
      Option (Authorizer E) → ExecutionRequest → List String → Action (World E) ExecutionResult
  unfolding after_decision
  authorized none request granted = dispatch_and_finish request []
  authorized (some authorizer) request granted = do
    outcome ← authorizer request granted
    after_decision request granted outcome

  -- `_publish` and `_observe` of the start
  unfoldable pub start : ExecutionRequest → Action (World E) Unit
  start request = do
    publish engine.event_bus (started_event request)
    notify engine.observability observed (started_observation request)

  unfoldable pub execute : ExecutionRequest → List String → Action (World E) ExecutionResult
  unfolding start authorized
  execute request granted_permissions = do
    start request
    authorized engine.authorizer request granted_permissions
