-- ===== src/AiEngine/Engine.antt =====
-- src/mellivor_kernel/ai_engine/engine.py: the composed engine, and the operations that it delegates
use mellivor_kernel.Prelude.{String, Option, none, List}
use mellivor_kernel.Python.{Action}
use mellivor_kernel.World.{World}
use mellivor_kernel.Execution.Request.{ExecutionRequest}
use mellivor_kernel.Execution.Result.{ExecutionResult}
use mellivor_kernel.Execution.Engine.{ExecutionEngine, Authorizer}
use mellivor_kernel.Execution.Engine
use mellivor_kernel.Workflow.Definition.{Workflow, WorkflowResult}
use mellivor_kernel.Workflow.Options.{WorkflowContext}
use mellivor_kernel.Workflow.Engine.{WorkflowEngine}
use mellivor_kernel.Workflow.Engine.Loop.{run}
use mellivor_kernel.Agents
use mellivor_kernel.Agents.{AgentEngine, Agent, AgentResult}

-- `plugin_registry` is the identity of the registry; the lifecycles are those of the fleet.
pub record AiEngine (E : Type 0) : Type 0 where
  pub execution_engine : ExecutionEngine E
  pub workflow_engine : WorkflowEngine E
  pub agent_engine : AgentEngine E
  pub authorizer : Option (Authorizer E)
  pub plugin_registry : String

module _ {E : Type 0} (engine : AiEngine E) where
  -- AIEngine.execute
  unfoldable pub execute : ExecutionRequest → List String → Action (World E) ExecutionResult
  execute = Engine.execute engine.execution_engine

  -- AIEngine.run_workflow; the options stay at their default.
  unfoldable pub run_workflow : Workflow → WorkflowContext → Action (World E) WorkflowResult
  run_workflow workflow context = run engine.workflow_engine workflow context none

  -- AIEngine.run_agent
  unfoldable pub run_agent : Agent → WorkflowContext → Action (World E) AgentResult
  run_agent = Agents.execute engine.agent_engine
