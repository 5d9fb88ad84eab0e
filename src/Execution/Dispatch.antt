-- ===== src/Execution/Dispatch.antt =====
-- src/mellivor_kernel/execution/dispatch.py
pub mod Reach
pub mod Total
pub mod Provided
use mellivor_kernel.Prelude.{
  ℕ, ℤ, pos, sub_ℕ, String, Bool, true, false, Option, none, some, List, [], ◌∷◌, put,
  if◌then◌else◌,
}
use mellivor_kernel.Python.{
  Payload, Text, lit, str, Exception, Result, returned, raised, error, dispatch_error, Action,
  raise, lift, attempt, ◌>>=◌, is_tool_validation_error, is_tool_registration_error,
  is_provider_registration_error,
}
use mellivor_kernel.World.{World, call, provider_invoked}
use mellivor_kernel.Tools.Permissions.{Permission, make_permissions}
use mellivor_kernel.Tools.Base.{BaseTool, ToolResult}
use mellivor_kernel.Tools.Registry.{ToolRegistry, lookup}
use mellivor_kernel.Tools.Pipeline.{Timer, read_timer, run}
use mellivor_kernel.Providers.Registry.{BaseProvider, ProviderRegistry, get}
use mellivor_kernel.Execution.Request.{
  ExecutionTarget, ExecutionRequest, target_value, target_repr, tool, provider, is_tool,
  is_provider,
}
use mellivor_kernel.Execution.Result.{ExecutionResult, make_result}

-- ExecutionResult(success=False, error=…, execution_time_seconds=…, metadata=…)
abbrev pub failed : Text → ℤ → Payload → ExecutionResult
failed message time metadata = record {
  success = false;
  payload = none;
  error_text = some message;
  execution_time = time;
  metadata = metadata;
}

-- {"target": ExecutionTarget.….value}
abbrev pub target_metadata : ExecutionTarget → Payload
target_metadata target = ("target", str (lit (target_value target) ∷ [])) ∷ []

-- The pipeline comes down to its timer.
pub record Dispatcher (E : Type 0) : Type 0 where
  pub tool_registry : ToolRegistry E
  pub provider_registry : ProviderRegistry E
  pub timer : Timer E

module _ {E : Type 0} (dispatcher : Dispatcher E) (request : ExecutionRequest) where
  -- The ExecutionResult of a ToolResult.
  unfoldable pub of_tool_result : ToolResult → Result ExecutionResult
  of_tool_result r = make_result (record {
    success = r.success;
    payload = r.payload;
    error_text = r.error_text;
    execution_time = r.execution_time;
    metadata = put "target" (str (lit (target_value tool) ∷ [])) r.metadata;
  })

  -- `_dispatch_to_tool` behind the construction of the permissions.
  run_tool : BaseTool E → Result (List Permission) → Action (World E) ExecutionResult
  run_tool t (raised e) =
      if is_tool_validation_error e.class
      then lift (
          make_result (
            failed e.message (pos 0) (
              ("target", str (lit (target_value tool) ∷ []))
              ∷ ("stage", str (lit "permission_check" ∷ []))
              ∷ [])))
      else raise e
  run_tool t (returned permissions) = do
    result ← run dispatcher.timer t request.payload permissions
    lift (of_tool_result result)

  -- `_dispatch_to_tool` behind the lookup.
  pub found_tool : List String → Result (BaseTool E) → Action (World E) ExecutionResult
  found_tool granted (raised e) =
      if is_tool_registration_error e.class
      then lift (make_result (failed e.message (pos 0) (target_metadata tool)))
      else raise e
  found_tool granted (returned t) = run_tool t (make_permissions granted)

  unfoldable pub dispatch_to_tool : List String → Action (World E) ExecutionResult
  unfolding found_tool run_tool
  dispatch_to_tool granted = found_tool granted (lookup request.operation dispatcher.tool_registry)

  -- The outcome of `provider.invoke`, with the time that it took.
  timed_response : Result Payload → ℤ → Result ExecutionResult
  timed_response (raised e) elapsed =
      make_result (failed e.message elapsed (target_metadata provider))
  timed_response (returned response) elapsed = make_result (record {
    success = true;
    payload = some response;
    error_text = none;
    execution_time = elapsed;
    metadata = target_metadata provider;
  })

  invoke_timed : BaseProvider E → Action (World E) ExecutionResult
  invoke_timed p = do
    started ← read_timer dispatcher.timer
    outcome ← attempt (call (provider_invoked p.name) (p.invoke request.payload))
    stopped ← read_timer dispatcher.timer
    lift (timed_response outcome (sub_ℕ stopped started))

  -- `_dispatch_to_provider` behind the lookup.
  pub found_provider : Result (BaseProvider E) → Action (World E) ExecutionResult
  found_provider (raised e) =
      if is_provider_registration_error e.class
      then lift (make_result (failed e.message (pos 0) (target_metadata provider)))
      else raise e
  found_provider (returned p) = invoke_timed p

  unfoldable pub dispatch_to_provider : Action (World E) ExecutionResult
  unfolding found_provider invoke_timed timed_response
  dispatch_to_provider = found_provider (get request.operation dispatcher.provider_registry)

  unfoldable pub dispatch : List String → Action (World E) ExecutionResult
  unfolding dispatch_to_tool dispatch_to_provider
  dispatch granted =
      if is_tool request.target
      then dispatch_to_tool granted
      else if is_provider request.target
      then dispatch_to_provider
      else raise (
          error dispatch_error (
            lit "No dispatch target registered for "
            ∷ lit (target_repr request.target)
            ∷ lit "."
            ∷ []))
