-- ===== src/Events/Subscriptions.antt =====
-- src/mellivor_kernel/events/in_memory.py: InMemoryEventBus. An event class is its name, in its
-- `repr` too. A handler that itself changes the subscriptions of the bus is left out; logging too.
pub mod Refinement
pub mod Delivery
use mellivor_kernel.Prelude.{
  String, Bool, true, false, Option, none, some, List, [], ◌∷◌, Dict, get, put, remove, has, values,
  if◌then◌else◌,
}
use mellivor_kernel.Python.{
  lit, quoted, Exception, Result, returned, raised, error, event_dispatch_error, Action,
}
use mellivor_kernel.World.{Call, EventBus}
use mellivor_kernel.Events.Event.{
  Event, execution_started, execution_completed, execution_failed, authorization_granted,
  authorization_denied, tool_call_requested, tool_call_completed, tool_call_rejected,
  workflow_started, workflow_completed, workflow_failed, agent_started, agent_completed,
  agent_failed,
}

-- `type(event)`
unfoldable pub event_type : Event → String
event_type (execution_started _ _ _) = "ExecutionStarted"
event_type (execution_completed _ _ _ _) = "ExecutionCompleted"
event_type (execution_failed _ _ _ _ _) = "ExecutionFailed"
event_type (authorization_granted _ _ _ _) = "AuthorizationGranted"
event_type (authorization_denied _ _ _ _) = "AuthorizationDenied"
event_type (tool_call_requested _ _ _ _) = "ToolCallRequested"
event_type (tool_call_completed _ _ _ _) = "ToolCallCompleted"
event_type (tool_call_rejected _ _ _ _) = "ToolCallRejected"
event_type (workflow_started _ _) = "WorkflowStarted"
event_type (workflow_completed _ _ _) = "WorkflowCompleted"
event_type (workflow_failed _ _ _ _) = "WorkflowFailed"
event_type (agent_started _ _) = "AgentStarted"
event_type (agent_completed _ _) = "AgentCompleted"
event_type (agent_failed _ _ _) = "AgentFailed"

-- EventRegistration; its identifier is a fresh uuid4, which the caller of `subscribe` supplies.
pub record EventRegistration : Type 0 where
  pub event_class : String
  pub registration_id : String

abbrev pub EventHandler : Type 0 → Type 0
EventHandler E = Event → Call E Unit

-- InMemoryEventBus._handlers
abbrev pub Handlers : Type 0 → Type 0
Handlers E = Dict (Dict (EventHandler E))

-- The EventDispatchError of a registration that is not an active subscription.
abbrev pub inactive : EventRegistration → Exception
inactive r = error event_dispatch_error (
    lit "EventRegistration(event_type="
    ∷ lit r.event_class
    ∷ lit ", registration_id="
    ∷ quoted r.registration_id
    ∷ lit ") is not an active subscription."
    ∷ [])

module _ {E : Type 0} where
  abbrev pub or_empty : Option (Dict (EventHandler E)) → Dict (EventHandler E)
  or_empty none = []
  or_empty (some handlers) = handlers

  -- `self._handlers.get(event_type, {})`
  unfoldable pub handlers_of : String → Handlers E → Dict (EventHandler E)
  handlers_of t bus = or_empty (get t bus)

  -- The loop of `publish`: what a handler raises is logged and dropped.
  unfoldable pub deliver : List (EventHandler E) → Event → E → E
  deliver [] event env = env
  deliver (handler ∷ handlers) event env = deliver handlers event (handler event env).1

  unfoldable pub publish_to : Handlers E → EventBus E
  unfolding deliver handlers_of
  publish_to bus event env =
      (returned tt, deliver (values (handlers_of (event_type event) bus)) event env)

  unfoldable pub subscribe :
      String → EventHandler E → String → Action (Handlers E) EventRegistration
  unfolding handlers_of
  subscribe t handler fresh bus = (
    returned (record { event_class = t; registration_id = fresh }),
    put t (put fresh handler (handlers_of t bus)) bus,
  )

  abbrev pub unsubscribe_from :
      EventRegistration → Option (Dict (EventHandler E)) → Action (Handlers E) Unit
  unsubscribe_from r none bus = (raised (inactive r), bus)
  unsubscribe_from r (some handlers) bus =
      if has r.registration_id handlers
      then (returned tt, put r.event_class (remove r.registration_id handlers) bus)
      else (raised (inactive r), bus)

  unfoldable pub unsubscribe : EventRegistration → Action (Handlers E) Unit
  unsubscribe r bus = unsubscribe_from r (get r.event_class bus) bus
