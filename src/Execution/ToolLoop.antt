-- ===== src/Execution/ToolLoop.antt =====
-- src/mellivor_kernel/execution/tool_loop.py: ToolCallLoop
pub mod Rounds
pub mod Contract
pub mod Outcome
pub mod Runs
pub mod Refusal
use mellivor_kernel.Prelude.{
  ℕ, zero, suc, ℤ, pos, negsuc, String, Bool, true, false, not, ◌&&◌, Option, none, some, List, [],
  ◌∷◌, ◌++◌, get, put, map, contains, is_nil, if◌then◌else◌,
}
use mellivor_kernel.Python.{
  Payload, Value, str, sequence, tool_call, tool_spec, Elements, no_elements, cons_element,
  as_fields, items, Text, lit, quoted, num, text_or, Exception, Result, returned, raised, error,
  tool_loop_error, provider_capability_error, Action, pure, lift, raise, ◌>>=◌, ◌>>◌,
}
use mellivor_kernel.World.{World, Call, call, EventBus, publish, hook_called, fresh}
use mellivor_kernel.Events.Event.{
  Event, tool_call_requested, tool_call_completed, tool_call_rejected,
}
use mellivor_kernel.Tools.Registry.{ToolRegistry, lookup, exists}
use mellivor_kernel.Providers.Registry.{ProviderRegistry}
use mellivor_kernel.Providers.Registry as Providers
use mellivor_kernel.Providers.ToolCalling.{
  ToolSpec, make_spec, ToolCall, ToolResultBlock, make_block, assistant_message,
  tool_results_message, dict_value, elements,
}
use mellivor_kernel.Execution.Request.{
  ExecutionRequest, ExecutionTarget, tool, provider, make_request,
}
use mellivor_kernel.Execution.Result.{ExecutionResult}
use mellivor_kernel.Execution.Engine.{ExecutionEngine, execute}
use mellivor_kernel.Execution.Conversation.{
  ToolCallDecision, ToolCallRecord, ToolLoopResult, ToolLoopOptions,
}

-- What `json.dumps` comes to: a text, one of the errors that `_render` catches, or another one.
pub data Dumped : Type 0 where
  dumped : Text → Dumped
  unserializable : Dumped
  broken : Exception → Dumped

-- `new_id` is `str(uuid.uuid4())`, `dumps` is `json.dumps` and `to_str` is `str`, of a dict.
pub record ToolCallLoop (E : Type 0) : Type 0 where
  pub engine : ExecutionEngine E
  pub tools : ToolRegistry E
  pub providers : ProviderRegistry E
  pub event_bus : Option (EventBus E)
  pub new_id : E → String × E
  pub dumps : Payload → Dumped
  pub to_str : Payload → Text

-- The tool calls among the entries of a sequence.
unfoldable pub calls_in : Elements → List ToolCall
calls_in no_elements = []
calls_in (cons_element (tool_call id name arguments) rest) =
    record { id = id; name = name; arguments = items arguments } ∷ calls_in rest
calls_in (cons_element _ rest) = calls_in rest

abbrev pub text_of : Option Value → Text
text_of (some (str t)) = t
text_of _ = []

unfoldable pub calls_of : Option Value → List ToolCall
unfolding calls_in
calls_of (some (sequence entries)) = calls_in entries
calls_of _ = []

-- _parse
abbrev pub parse : Payload → Text × List ToolCall
parse payload = (text_of (get "text" payload), calls_of (get "tool_calls" payload))

abbrev spec_value : ToolSpec → Value
spec_value s = tool_spec s.name s.description (as_fields s.input_schema)

-- payload[key] = value, for a value that is there
abbrev put_some : String → Option Value → Payload → Payload
put_some key none payload = payload
put_some key (some v) payload = put key v payload

abbrev system_value : Option Text → Option Value
system_value none = none
system_value (some t) = some (str t)

-- _provider_payload
unfoldable pub provider_payload :
    {E : Type 0} → List Payload → List ToolSpec → ToolLoopOptions E → Payload
unfolding elements
provider_payload history specs o = put_some "max_tokens" o.max_tokens (
    put_some "system" (system_value o.system) (
      ("messages", sequence (elements (map dict_value history)))
      ∷ ("tools", sequence (elements (map spec_value specs)))
      ∷ []))

-- A call that the loop has handled: what goes back to the model, and its record.
abbrev pub Handled : Type 0
Handled = ToolResultBlock × ToolCallRecord

module _ {E : Type 0} (loop : ToolCallLoop E) where
  -- _describe
  unfoldable pub describe : List String → Result (List ToolSpec)
  describe [] = returned []
  describe (id ∷ ids) =
      let later = describe ids in
      if not (exists id loop.tools)
      then raised (error tool_loop_error (lit "Tool " ∷ quoted id ∷ lit " is not registered." ∷ []))
      else elim (lookup id loop.tools) [
        | raised e ↦ raised e
        | returned t ↦
            elim (make_spec (record {
              name = t.id;
              description = t.description;
              input_schema = t.input_schema;
            })) [
              | raised e ↦ raised e
              | returned spec ↦ elim later [
                | raised e ↦ raised e
                | returned specs ↦ returned (spec ∷ specs)
              ]
            ]
      ]

  -- _require_tool_calls
  unfoldable pub require_tool_calls : String → Result Unit
  require_tool_calls name =
      if not (Providers.is_registered name loop.providers)
      then raised (
          error provider_capability_error
            (lit "Provider " ∷ quoted name ∷ lit " is not registered." ∷ []))
      else elim (Providers.get name loop.providers) [
        | raised e ↦ raised e
        | returned p ↦
            if not p.supports_tool_calls
            then raised (
                error provider_capability_error (
                  lit "Provider "
                  ∷ quoted name
                  ∷ lit " does not declare supports_tool_calls."
                  ∷ []))
            else returned tt
      ]

  -- _render
  unfoldable pub render : Option Payload → Result Text
  render none = returned []
  render (some p) = elim (loop.dumps p) [
    | dumped t ↦ returned t
    | unserializable ↦ returned (loop.to_str p)
    | broken e ↦ raised e
  ]

  -- An execution of a new request.
  unfoldable pub request :
      ExecutionTarget → String → Payload → List String → Action (World E) ExecutionResult
  request target operation payload granted = do
    id ← fresh loop.new_id
    r ← lift (make_request target operation payload id)
    execute loop.engine r granted

  module _ (loop_id : String) where
    -- _reject
    unfoldable pub reject : ToolCall → Text → Action (World E) Handled
    reject c reason = do
      publish loop.event_bus (tool_call_rejected loop_id c.id c.name reason)
      b ← lift (make_block (record { tool_call_id = c.id; content = reason; is_error = true }))
      pure (b, record { called = c; executed = false; success = false; result = reason })

    -- The part of `_handle` behind the execution.
    unfoldable pub complete : ToolCall → ExecutionResult → Action (World E) Handled
    unfolding render
    complete c outcome = do
      rendered ← lift (
          if outcome.success
          then render outcome.payload
          else returned (text_or outcome.error_text (lit "Tool execution failed." ∷ [])))
      publish loop.event_bus (tool_call_completed loop_id c.id c.name outcome.success)
      b ← lift (
          make_block
            (record { tool_call_id = c.id; content = rendered; is_error = not outcome.success }))
      pure (b, record { called = c; executed = true; success = outcome.success; result = rendered })

    -- The part of `_handle` behind the hook.
    unfoldable pub after_hook : ToolCall → ToolCallDecision → List String → Action (World E) Handled
    unfolding reject complete request
    after_hook c decision granted =
        if not decision.allowed
        then reject c (text_or decision.reason (lit "Tool call declined." ∷ []))
        else (request tool c.name c.arguments granted >>= complete c)

    -- _handle
    unfoldable pub handle :
        List String → ToolLoopOptions E → List String → ℕ → ToolCall → Action (World E) Handled
    unfolding after_hook
    handle allowed o granted iteration c =
        publish loop.event_bus (tool_call_requested loop_id c.id c.name iteration)
        >> (if not (contains c.name allowed)
            then reject c (lit "Tool is not in the offered set." ∷ [])
            else (do
              decision ← call (hook_called c.name) (o.before_tool_call c)
              after_hook c decision granted))

    -- The calls of one round, in order.
    unfoldable pub handle_all :
        List String
        → ToolLoopOptions E
        → List String
        → ℕ
        → List ToolCall
        → Action (World E) (List Handled)
    unfolding handle
    handle_all allowed o granted iteration [] = pure []
    handle_all allowed o granted iteration (c ∷ cs) = do
      one ← handle allowed o granted iteration c
      rest ← handle_all allowed o granted iteration cs
      pure (one ∷ rest)
