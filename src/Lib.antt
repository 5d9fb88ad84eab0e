-- ===== src/Lib.antt =====
-- The core of Mellivor Kernel: how a request is authorized, dispatched and executed.
--
-- An ExecutionEngine (src/mellivor_kernel/execution/engine.py) takes a request for a tool or a
-- provider. It publishes a start event, asks its authorizer, hands the request to the Dispatcher,
-- and closes with one event, one observation and one memory entry. The Dispatcher finds the target
-- in a registry; a tool runs in the ToolExecutionPipeline: validation, permission check, execution.
-- The AuthorizationEngine is an authorizer: it compares the claimed permissions with those that the
-- registered tool declares.
--
-- Three clients drive the ExecutionEngine. The WorkflowEngine (workflow/engine.py) runs the steps of
-- a workflow through it, one unit after the other, and the steps of a parallel group in a pool of
-- threads. The AgentEngine (agents/engine.py) runs the workflow of an agent. The ToolCallLoop
-- (execution/tool_loop.py) runs a conversation in which a model calls tools.
--
-- Parts, with the files of src/mellivor_kernel that they model:
--   Execution.Engine      execution/engine.py, contracts.py: execute, _finish, _publish, _observe,
--                         _remember
--   Execution.Dispatch    execution/dispatch.py: dispatch, _dispatch_to_tool, _dispatch_to_provider
--   Execution.Request, Execution.Result, Events.Event
--                         execution/request.py, result.py, events.py; the events of
--                         authorization/, workflow/ and agents/
--   Execution.ToolLoop, Execution.Conversation, Providers.ToolCalling
--                         execution/tool_loop.py, providers/tool_calling.py
--   Workflow.Engine       workflow/engine.py: run, _run_unit, _resolve_and_execute_step, _remember
--   Workflow.Pool         workflow/engine.py: _run_parallel_group
--   Workflow.Units, Workflow.Options, Workflow.Definition
--                         workflow/engine.py (_group_into_units, _validate_options,
--                         _first_stopping_failure), options.py, definition.py, step.py, result.py
--   Agents                agents/engine.py, agent.py, definition.py, result.py
--   Authorization         authorization/engine.py (authorize, check, _audit), resolver.py,
--                         request.py, result.py, permission_set.py
--   Tools.Pipeline        tools/pipeline.py: run
--   Tools.Permissions     tools/permissions.py
--   Tools.Base            tools/base.py, result.py, metadata.py
--   Registry              the code that tools/registry.py, providers/registry.py and
--                         plugins/registry.py share line by line; Tools.Registry,
--                         Providers.Registry and Plugins.Registry are its three instances
--   Memory.Entry, Memory.Store, Memory.Facade
--                         memory/entry.py, in_memory.py, query.py, memory.py, store.py, result.py
--   Events.Subscriptions  events/in_memory.py and registration.py: publish, subscribe, unsubscribe
--   Core.Runtime          core/runtime.py: start, shutdown, health
--   Core.Container        core/container.py
--   Plugins.Lifecycle     plugins/lifecycle.py: the state machine of a plugin
--   Plugins.Version, Plugins.Capability, Plugins.Loader
--                         plugins/versioning.py, capability.py, manifest.py, loader.py
--   Plugins.Sdk           plugin_sdk/builder.py, helpers.py, validation.py
--   Providers.Factory     providers/configuration.py, factory.py
--   Providers.ChatCompletions
--                         providers/_chat_completions.py
--   Providers.OpenAi, Claude, Gemini, Local, Vendor
--                         providers/openai.py, claude.py, gemini.py, local.py, health.py; Vendor is
--                         what they share
--   World                 the records of security/ and observability/ that cross the boundary, and
--                         the state that the engines run over
--   Python, Prelude       texts, exceptions, effects, dicts, lists and integers
--   AiEngine              ai_engine: Engine and Builder compose the engines, Owners is
--                         `_registry_owners`, Fleet the lifecycles of the plugins
--   Examples              concrete kernels on which the theorems are applied
--
-- State. An engine runs over a World: an environment of any type, which stands for everything that
-- is not the kernel's own (tools, providers, buses, stores, sinks, clocks, the contexts), and the
-- trace of the calls that the kernel makes across that boundary, the newest first. The trace is only
-- recorded; no code reads it. Code outside the kernel is a parameter that may change the environment
-- and may raise; what a theorem needs of it is a hypothesis: IsWellBehaved of a tool,
-- IsWellBehavedProvider, IsSound (the bus and the sink never raise, `str` of a payload is not
-- blank), KeepsApart of an authorizer, and for the clients IsDependable (the clock answers aware
-- times), IsDependableLoop and Decides of a hook. A statement may raise, and what was done before stays
-- done, so an Action gives an outcome and a state.
--
-- Choices. A frozenset is a list in its iteration order, with membership by value. A dict is an
-- association list in insertion order. An f-string is the list of its pieces, with the `repr` of a
-- value kept as `quoted`. A float of seconds is an integer of clock ticks, and perf_counter is a
-- parameter whose documented monotonicity is a hypothesis. uuid4 is a parameter too; that what it
-- answers is not blank is a hypothesis. The threads of a parallel group get on by the moves that a
-- parameter `schedule` chooses, which may be any function of the pool; where it chooses a move that
-- is not possible another one is made, so that the pool does not rest. Three moves for each step are
-- the fuel of the pool, and they bring it to its end. The tool loop recurs on the rounds that are
-- left of `max_iterations`. An engine and a plugin registry of the AI engine have identities, which
-- are texts; a new one is one to which no entry refers, and the garbage collector is a step that
-- takes an engine, or a registry that no live engine holds. Plugin discovery is a parameter of the
-- builder. All other recursion is on the structure of lists.
--
-- Not modelled: logging; uuid4 identifiers and times of construction of events and memory entries,
-- which the kernel does not read; exceptions that are no `Exception`; the interleaving of the calls
-- of two steps that run at once (a step is one action); an event handler that changes the
-- subscriptions, and a factory that calls its container; SystemClock, json.dumps, `str` and the
-- Unicode tables of digits, which are parameters; the contexts of the engines, which are part of
-- the environment; a plugin whose methods change the registry that its engine goes through. Plugin
-- discovery, the SQLite and vector memory, the composition of the kernel (bootstrap), secrets,
-- configuration and logging are no part of this development.
pub mod Prelude
pub mod Python
pub mod World
pub mod Events
pub mod Memory
pub mod Registry
pub mod Tools
pub mod Providers
pub mod Execution
pub mod Authorization
pub mod Core
pub mod Plugins
pub mod Examples
pub mod Workflow
pub mod Agents
pub mod AiEngine
