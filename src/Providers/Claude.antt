-- ===== src/Providers/Claude.antt =====
-- src/mellivor_kernel/providers/claude.py: ClaudeProvider
pub mod Messages
pub mod Contract
use mellivor_kernel.Prelude.{
  ℕ, ℤ, String, Bool, true, false, not, ◌&&◌, Option, none, some, List, [], ◌∷◌, ◌++◌, is_nil,
  if◌then◌else◌,
}
use mellivor_kernel.Python.{
  Payload, Value, none_value, str, int, mapping, items, word, Text, lit, is_empty_text, error,
  provider_configuration_error, claude, provider_fault, response_fault, Result, returned, raised,
  chain, Builtins, get_value,
}
use mellivor_kernel.World.{Call}
use mellivor_kernel.Providers.Registry.{BaseProvider}
use mellivor_kernel.Providers.ToolCalling.{ToolCall, make_call}
use mellivor_kernel.Providers.ChatCompletions.{ErrorFactory, collect, message_of, dict_of}
use mellivor_kernel.Providers.Factory.{ProviderConfiguration}
use mellivor_kernel.Providers.Vendor.{
  Answer, answered, errored, fault_of, of_sdk_error, max_tokens_of, calls_value,
  ProviderHealthCheck, is_missing, chosen_model, transact, health_of,
}
use mellivor_kernel.Providers.Claude.Messages.{messages_from, tools_from, request_error}

-- The keyword arguments of `messages.create`; what is omitted is `none`.
pub record MessageRequest : Type 0 where
  pub model : String
  pub max_tokens : ℕ
  pub messages : List Payload
  pub system : Option Text
  pub tools : Option (List Value)

-- What the provider reads of a message (the `anthropic` package's objects).
pub data ContentBlock : Type 0 where
  text_content : Text → ContentBlock
  tool_use_content : (id name : String) → Value → ContentBlock
  other_content : ContentBlock

pub record Message : Type 0 where
  pub content : List ContentBlock
  pub model : Text
  pub stop_reason : Value
  pub input_tokens : ℤ
  pub output_tokens : ℤ

-- self._client.messages.create
abbrev pub Create : Type 0 → Type 0
Create E = MessageRequest → E → Answer Message × E

-- The checks of the constructor, which give the model.
unfoldable pub model_of : ProviderConfiguration → Result String
model_of c =
    if is_missing c.api_key
    then raised (
        error provider_configuration_error (
          lit "ClaudeProvider requires configuration.api_key. It does not fall back to the "
          ∷ lit "ANTHROPIC_API_KEY environment variable, so credentials always flow through the "
          ∷ lit "kernel's own configuration system."
          ∷ []))
    else chosen_model c.default_model
        (lit "ClaudeProvider requires configuration.default_model (e.g. 'claude-sonnet-5')." ∷ [])

-- "".join of the texts among the blocks
unfoldable pub joined_text : List ContentBlock → Text
joined_text [] = []
joined_text (text_content t ∷ blocks) = t ++ joined_text blocks
joined_text (_ ∷ blocks) = joined_text blocks

-- The tool calls among the blocks, before they are constructed.
unfoldable pub tool_uses : List ContentBlock → List ToolCall
tool_uses [] = []
tool_uses (tool_use_content id name input ∷ blocks) =
    record { id = id; name = name; arguments = dict_of input } ∷ tool_uses blocks
tool_uses (_ ∷ blocks) = tool_uses blocks

abbrev pub system_of : Value → Result (Option Text)
system_of none_value = returned none
system_of (str t) = returned (some t)
system_of _ = raised (request_error (lit "request['system'] must be a string, if provided." ∷ []))

abbrev response_error : ErrorFactory
response_error = fault_of claude response_fault

unfoldable pub respond : Message → List ToolCall → Result Payload
unfolding joined_text
respond message calls =
    let text = joined_text message.content in
    if is_empty_text text && is_nil calls
    then raised (response_error (lit "Anthropic response contained no text content." ∷ []))
    else returned (
        ("text", str text)
        ∷ ("tool_calls", calls_value calls)
        ∷ ("model", str message.model)
        ∷ ("stop_reason", message.stop_reason)
        ∷ ("input_tokens", int message.input_tokens)
        ∷ ("output_tokens", int message.output_tokens)
        ∷ [])

-- The part of `invoke` behind the request.
unfoldable pub conclude : Answer Message → Result Payload
unfolding tool_uses respond collect
conclude (errored e) = raised (of_sdk_error claude "Anthropic" e)
conclude (answered message) =
    chain (collect make_call (tool_uses message.content)) (respond message)

module _ (py : Builtins) where
  -- The part of `invoke` in front of the request.
  unfoldable pub prepare : String → Payload → Result MessageRequest
  prepare model request = chain (messages_from py request) λ messages.
      chain (system_of (get_value "system" request)) λ system.
        chain (max_tokens_of request_error request) λ max_tokens.
          chain (tools_from (get_value "tools" request)) λ tools. returned (record {
            model = model;
            max_tokens = max_tokens;
            messages = messages;
            system = system;
            tools = tools;
          })

  module _ {E : Type 0} (create : Create E) where
    unfoldable pub invoke : String → Payload → Call E Payload
    unfolding prepare conclude
    invoke model request = transact create conclude (prepare model request)

    unfoldable pub check_health : String → Call E ProviderHealthCheck
    check_health model env =
        let (answer, env') =
          create
            (record {
              model = model;
              max_tokens = 1;
              messages = message_of (lit "user" ∷ []) (word "ping") ∷ [];
              system = none;
              tools = none;
            })
            env in
        (health_of "claude" answer, env')

    -- ClaudeProvider, as its constructor makes it with a client that it is given.
    unfoldable pub claude_provider : ProviderConfiguration → Result (BaseProvider E)
    unfolding model_of invoke
    claude_provider c = chain (model_of c) λ model.
        returned (record { name = "claude"; supports_tool_calls = true; invoke = invoke model })
