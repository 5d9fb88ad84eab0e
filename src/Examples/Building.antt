-- ===== src/Examples/Building.antt =====
-- The theorem about the engine that a builder makes, on the host of the samples.
use mellivor_kernel.Prelude.{ℕ, ◌≡◌, refl, some, none, List, [], ◌∷◌, true}
use mellivor_kernel.Python.{
  Returns, Ends, returned, lit, is_blank, is_blank_text, error, memory_error, raised,
}
use mellivor_kernel.World.{Effect}
use mellivor_kernel.Workflow.Pool.{begin}
use mellivor_kernel.Execution.Result.{IsValidResult}
use mellivor_kernel.Execution.Engine.Finish.{IsSound, opening, closing}
use mellivor_kernel.Execution.Engine.Closed.{Grew}
use mellivor_kernel.Execution.Engine.Guard.{is_tool_run}
use mellivor_kernel.AiEngine.Engine.{execute}
use mellivor_kernel.AiEngine.Builder.{
  Platform, AiEngineBuilder, Objects, new_ai_engine_builder, with_authorization, with_event_bus,
  with_memory, with_observability, execution_engine, build,
}
use mellivor_kernel.AiEngine.Builder.Guarded.{IsAiEngineError, build_guard}
use mellivor_kernel.Examples.Samples.{
  host_timer, host_tools, host_providers, host-IsWellBehaved, read_tool, read_request, new_world,
  quiet_bus,
}
use mellivor_kernel.Examples.Authorizing.{read_request-named}
use mellivor_kernel.Examples.Executing.{read_tool_found, nothing_held}

abbrev platform : Platform ℕ
platform = record {
  timer = host_timer;
  clock =
      λ now. (returned (record { instant = now; is_aware = true; isoformat = "2026-01-01" }), now);
  new_id = λ now. ("w1", now);
  schedule = λ pool. begin;
  render = λ p. lit "{...}" ∷ [];
  shown = λ registry. lit "<PluginRegistry>" ∷ [];
}

-- Authorization by default, a bus, a memory store that always raises, and a sink.
abbrev host_builder : AiEngineBuilder ℕ
host_builder =
    with_observability (λ observation now. (returned tt, now))
      (with_memory (λ entry now. (raised (error memory_error []), now))
        (with_event_bus quiet_bus (
          with_authorization none (some (λ entry now. (returned tt, now))) (
            new_ai_engine_builder
              (record { tool_registry = host_tools; provider_registry = host_providers })))))

abbrev no_objects : Objects ℕ
no_objects = record { owned = record { owners = []; engines = [] }; registries = [] }

host_builder-IsSound : IsSound (execution_engine platform host_builder) read_request
unfolding is_blank_text is_blank with_authorization with_event_bus with_memory with_observability
host_builder-IsSound = record {
  quiet_bus = λ e env. refl;
  quiet_sink = λ o env. refl;
  readable = λ p. refl;
  identified = refl;
}

build_guard_example :
    Ends
      (λ engine.
        Returns
          (λ r.
            IsValidResult r
            × ((middle : List Effect) × Grew is_tool_run
                  (opening engine.execution_engine read_request [])
                  middle
                × ((execute engine read_request [] new_world).1.trace
                    ≡ closing engine.execution_engine read_request r middle)))
          (execute engine read_request [] new_world).0)
      IsAiEngineError
      (build platform host_builder "engine1" "plugins" no_objects).0
unfolding with_authorization with_event_bus with_memory with_observability new_ai_engine_builder
build_guard_example =
    build_guard platform host_builder refl read_request host_builder-IsSound (λ a env. refl)
      read_request-named host-IsWellBehaved read_tool read_tool_found [] "engine1" "plugins"
      no_objects new_world nothing_held
