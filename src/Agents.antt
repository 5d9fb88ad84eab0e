-- ===== src/Agents.antt =====
-- src/mellivor_kernel/agents: agent.py, definition.py, result.py and engine.py
pub mod Mirror
use mellivor_kernel.Prelude.{
  String, Bool, true, false, not, ◌&&◌, Option, none, some, [], ◌∷◌, is_some, if◌then◌else◌,
}
use mellivor_kernel.Python.{
  Payload, Text, lit, quoted, str, bool, text_or, is_blank, has_text, Result, returned, raised,
  error, agent_error, Action, pure, lift, ◌>>=◌, ◌>>◌,
}
use mellivor_kernel.World.{World, Call, EventBus, publish, add_quietly, fresh}
use mellivor_kernel.Events.Event.{Event, agent_started, agent_completed, agent_failed}
use mellivor_kernel.Memory.Entry.{MemoryEntry, make_entry}
use mellivor_kernel.Execution.Engine.{error_pieces}
use mellivor_kernel.Workflow.Definition.{WorkflowDefinition, Workflow, WorkflowResult}
use mellivor_kernel.Workflow.Options.{WorkflowContext}
use mellivor_kernel.Workflow.Engine.{WorkflowEngine}
use mellivor_kernel.Workflow.Engine.Loop.{run}

pub record AgentDefinition : Type 0 where
  pub name : String
  pub workflow : WorkflowDefinition
  pub metadata : Payload

-- AgentDefinition.__post_init__
unfoldable pub make_agent_definition : AgentDefinition → Result AgentDefinition
make_agent_definition d =
    if is_blank d.name
    then raised (error agent_error (lit "AgentDefinition.name must not be blank." ∷ []))
    else returned d

pub record Agent : Type 0 where
  pub definition : AgentDefinition
  pub agent_id : String

pub record AgentResult : Type 0 where
  pub success : Bool
  pub workflow_result : WorkflowResult
  pub error_text : Option Text

-- AgentResult.__post_init__
unfoldable pub make_agent_result : AgentResult → Result AgentResult
make_agent_result r =
    if not r.success && not (has_text r.error_text)
    then raised (
        error agent_error
          (lit "A failed AgentResult must include a non-empty `error` message." ∷ []))
    else if r.success && is_some r.error_text
    then raised (error agent_error (lit "A successful AgentResult must not set `error`." ∷ []))
    else returned r

-- `new_id` is `str(uuid.uuid4())`.
pub record AgentEngine (E : Type 0) : Type 0 where
  pub workflow_engine : WorkflowEngine E
  pub memory : Option (MemoryEntry → Call E Unit)
  pub event_bus : Option (EventBus E)
  pub new_id : E → String × E

-- The result and the event by the workflow's outcome.
abbrev pub mirrored : Agent → WorkflowResult → AgentResult
mirrored agent workflow_result =
    if workflow_result.success
    then record { success = true; workflow_result = workflow_result; error_text = none }
    else record {
      success = false;
      workflow_result = workflow_result;
      error_text = some (
          lit "Workflow "
          ∷ quoted agent.definition.workflow.name
          ∷ lit " failed: "
          ∷ error_pieces workflow_result.error_text);
    }

abbrev pub agent_event : Agent → AgentResult → Event
agent_event agent r =
    if r.success
    then agent_completed agent.agent_id agent.definition.name
    else agent_failed agent.agent_id agent.definition.name (text_or r.error_text [])

abbrev pub agent_entry : Agent → AgentResult → MemoryEntry
agent_entry agent r = record {
  id = agent.agent_id;
  content =
      if r.success
      then lit "Agent " ∷ quoted agent.definition.name ∷ lit " completed successfully." ∷ []
      else lit "Agent "
        ∷ quoted agent.definition.name
        ∷ lit " failed: "
        ∷ error_pieces r.error_text;
  tags = "agent" ∷ [];
  metadata = ("name", str (lit agent.definition.name ∷ [])) ∷ ("success", bool r.success) ∷ [];
}

module _ {E : Type 0} (engine : AgentEngine E) where
  -- `_remember`
  unfoldable pub remember_agent :
      Option (MemoryEntry → Call E Unit) → Agent → AgentResult → Action (World E) Unit
  remember_agent none agent r = pure tt
  remember_agent (some add) agent r = do
    entry ← lift (make_entry (agent_entry agent r))
    add_quietly (some add) entry

  -- The part of `execute` behind the workflow run.
  unfoldable pub report : Agent → WorkflowResult → Action (World E) AgentResult
  unfolding remember_agent
  report agent workflow_result = do
    r ← lift (make_agent_result (mirrored agent workflow_result))
    publish engine.event_bus (agent_event agent r)
    remember_agent engine.memory agent r
    pure r

  abbrev pub workflow_of : Agent → String → Workflow
  workflow_of agent id = record { definition = agent.definition.workflow; workflow_id = id }

  -- AgentEngine.execute
  unfoldable pub execute : Agent → WorkflowContext → Action (World E) AgentResult
  unfolding report
  execute agent context = do
    publish engine.event_bus (agent_started agent.agent_id agent.definition.name)
    id ← fresh engine.new_id
    workflow_result ← run engine.workflow_engine (workflow_of agent id) context none
    report agent workflow_result
