-- ===== src/AiEngine/Builder.antt =====
-- src/mellivor_kernel/ai_engine/builder.py
pub mod Guarded
use mellivor_kernel.Prelude.{
  String, Bool, true, false, Option, none, some, List, [], ◌∷◌, ◌++◌, Dict, get, put, if◌then◌else◌,
}
use mellivor_kernel.Python.{
  Text, lit, quoted, Result, returned, raised, error, ai_engine_error, Action, Payload, pure, lift,
  ◌>>=◌, ◌>>◌,
}
use mellivor_kernel.World.{Call, EventBus, Observation, AuditRecord}
use mellivor_kernel.Tools.Pipeline.{Timer}
use mellivor_kernel.Tools.Registry.{ToolRegistry}
use mellivor_kernel.Providers.Registry.{ProviderRegistry}
use mellivor_kernel.Memory.Entry.{MemoryEntry}
use mellivor_kernel.Execution.Dispatch.{Dispatcher}
use mellivor_kernel.Execution.Engine.{ExecutionEngine, Authorizer}
use mellivor_kernel.Authorization.{AuthorizationEngine}
use mellivor_kernel.Authorization.Authorizer.{as_authorizer}
use mellivor_kernel.Workflow.Engine.{WorkflowEngine}
use mellivor_kernel.Workflow.Options.{Datetime}
use mellivor_kernel.Workflow.Pool.{Pool, Move}
use mellivor_kernel.Agents.{AgentEngine}
use mellivor_kernel.Plugins.Registry.{PluginRegistry}
use mellivor_kernel.AiEngine.Owners.{Owners, own}
use mellivor_kernel.AiEngine.Engine.{AiEngine}

-- What the engines take from Python itself: clocks, identifiers, the threads' order and `str`.
pub record Platform (E : Type 0) : Type 0 where
  pub timer : Timer E
  pub clock : Call E Datetime
  pub new_id : E → String × E
  pub schedule : Pool E → Move
  pub render : Payload → Text
  pub shown : String → Text

-- What the builder reads of a RuntimeContext.
pub record RuntimeContext (E : Type 0) : Type 0 where
  pub tool_registry : ToolRegistry E
  pub provider_registry : ProviderRegistry E

-- PluginDiscovery(loader).discover_and_register, with its root and its loader: it adds the plugins
-- that it finds to a registry.
pub record Discovery (E : Type 0) : Type 0 where
  pub root : String
  pub discover : Action (PluginRegistry E) Unit

pub record AiEngineBuilder (E : Type 0) : Type 0 where
  pub runtime : RuntimeContext E
  pub authorization_requested : Bool
  pub authorizer : Option (Authorizer E)
  pub audit_sink : Option (AuditRecord → Call E Unit)
  pub event_bus : Option (EventBus E)
  pub memory : Option (MemoryEntry → Call E Unit)
  pub observability : Option (Observation → Call E Unit)
  pub plugin_registry : Option String
  pub discovery : Option (Discovery E)

-- The registries by their identities, and who owns them.
pub record Objects (E : Type 0) : Type 0 where
  pub owned : Owners
  pub registries : Dict (PluginRegistry E)

module _ {E : Type 0} where
  -- `__init__`
  unfoldable pub new_ai_engine_builder : RuntimeContext E → AiEngineBuilder E
  new_ai_engine_builder runtime = record {
    runtime = runtime;
    authorization_requested = false;
    authorizer = none;
    audit_sink = none;
    event_bus = none;
    memory = none;
    observability = none;
    plugin_registry = none;
    discovery = none;
  }

  unfoldable pub with_authorization :
      Option (Authorizer E)
      → Option (AuditRecord → Call E Unit)
      → AiEngineBuilder E
      → AiEngineBuilder E
  with_authorization authorizer audit_sink b = record b {
    authorization_requested = true;
    authorizer = authorizer;
    audit_sink = audit_sink;
  }

  unfoldable pub with_event_bus : EventBus E → AiEngineBuilder E → AiEngineBuilder E
  with_event_bus event_bus b = record b { event_bus = some event_bus }

  unfoldable pub with_memory : (MemoryEntry → Call E Unit) → AiEngineBuilder E → AiEngineBuilder E
  with_memory memory b = record b { memory = some memory }

  unfoldable pub with_observability :
      (Observation → Call E Unit) → AiEngineBuilder E → AiEngineBuilder E
  with_observability sink b = record b { observability = some sink }

  unfoldable pub with_plugin_registry : String → AiEngineBuilder E → AiEngineBuilder E
  with_plugin_registry registry b = record b { plugin_registry = some registry }

  unfoldable pub with_plugin_discovery : Discovery E → AiEngineBuilder E → AiEngineBuilder E
  with_plugin_discovery discovery b = record b { discovery = some discovery }

module _ {E : Type 0} (platform : Platform E) (b : AiEngineBuilder E) where
  abbrev pub default_engine : AuthorizationEngine E
  default_engine = record {
    tool_registry = b.runtime.tool_registry;
    event_bus = b.event_bus;
    audit_sink = b.audit_sink;
  }

  abbrev pub default_authorizer : Bool → Option (Authorizer E) → Option (Authorizer E)
  default_authorizer true none = some (as_authorizer default_engine)
  default_authorizer _ authorizer = authorizer

  abbrev pub resolved_authorizer : Option (Authorizer E)
  resolved_authorizer = default_authorizer b.authorization_requested b.authorizer

  abbrev pub dispatcher : Dispatcher E
  dispatcher = record {
    tool_registry = b.runtime.tool_registry;
    provider_registry = b.runtime.provider_registry;
    timer = platform.timer;
  }

  abbrev pub execution_engine : ExecutionEngine E
  execution_engine = record {
    dispatcher = dispatcher;
    authorizer = resolved_authorizer;
    event_bus = b.event_bus;
    memory = b.memory;
    observability = b.observability;
    render = platform.render;
  }

  abbrev pub workflow_engine : WorkflowEngine E
  workflow_engine = record {
    execution_engine = execution_engine;
    memory = b.memory;
    event_bus = b.event_bus;
    max_concurrency = none;
    clock = platform.clock;
    schedule = platform.schedule;
  }

  abbrev pub agent_engine : AgentEngine E
  agent_engine = record {
    workflow_engine = workflow_engine;
    memory = b.memory;
    event_bus = b.event_bus;
    new_id = platform.new_id;
  }

  -- `PluginRegistry()` gets a new identity.
  abbrev pub resolve_registry : (new_registry : String) → Option String → Action (Objects E) String
  resolve_registry new_registry (some registry) s = (returned registry, s)
  resolve_registry new_registry none s =
      (returned new_registry, record s { registries = put new_registry [] s.registries })

  abbrev content : Option (PluginRegistry E) → PluginRegistry E
  content none = []
  content (some plugins) = plugins

  -- `except Exception as exc: raise AIEngineError(...) from exc`
  abbrev discovery_failed : String → Result Unit → Result Unit
  discovery_failed root (returned _) = returned tt
  discovery_failed root (raised e) = raised (
      error ai_engine_error
        (lit "Plugin discovery from " ∷ quoted root ∷ lit " failed: " ∷ e.message))

  abbrev pub discover_into : String → Option (Discovery E) → Action (Objects E) Unit
  discover_into registry none s = (returned tt, s)
  discover_into registry (some discovery) s =
      let (r, plugins) = discovery.discover (content (get registry s.registries)) in
      (
        discovery_failed discovery.root r,
        record s { registries = put registry plugins s.registries },
      )

  abbrev pub own_registry : (new_engine registry : String) → Action (Objects E) Unit
  own_registry new_engine registry s =
      let (r, owned) = own new_engine registry (platform.shown registry) s.owned in
      (r, record s { owned = owned })

  -- AIEngineBuilder.build; the identities of the new objects are arguments.
  unfoldable pub build : (new_engine new_registry : String) → Action (Objects E) (AiEngine E)
  build new_engine new_registry = do
    registry ← resolve_registry new_registry b.plugin_registry
    discover_into registry b.discovery
    own_registry new_engine registry
    pure (record {
      execution_engine = execution_engine;
      workflow_engine = workflow_engine;
      agent_engine = agent_engine;
      authorizer = resolved_authorizer;
      plugin_registry = registry;
    })
