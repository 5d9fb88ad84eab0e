-- ===== src/Providers/OpenAi.antt =====
-- src/mellivor_kernel/providers/openai.py: OpenAIProvider
pub mod Contract
use mellivor_kernel.Prelude.{
  ℕ, ℤ, pos, String, Bool, true, false, not, ◌&&◌, Option, none, some, List, [], ◌∷◌, is_nil, get,
  if◌then◌else◌,
}
use mellivor_kernel.Python.{
  Payload, Value, none_value, str, int, word, Text, lit, is_empty_text, Exception, error,
  other_error, provider_configuration_error, openai, provider_fault, response_fault, Result,
  returned, raised, chain, Builtins, get_value,
}
use mellivor_kernel.World.{Call}
use mellivor_kernel.Providers.Registry.{BaseProvider}
use mellivor_kernel.Providers.ToolCalling.{ToolCall}
use mellivor_kernel.Providers.ChatCompletions.{
  ErrorFactory, messages_to_chat, tools_to_chat, message_of,
}
use mellivor_kernel.Providers.ChatCompletions.Calls.{tool_calls_from_chat}
use mellivor_kernel.Providers.Factory.{ProviderConfiguration}
use mellivor_kernel.Providers.Vendor.{
  Answer, answered, errored, SdkError, unauthenticated, timed_out, unreachable, refused, escaped,
  fault_of, of_sdk_error, max_tokens_of, calls_value, ProviderHealthCheck, is_missing, chosen_model,
  text_or_empty, transact, health_of,
}

-- The keyword arguments of `chat.completions.create`; tools that are omitted are `none`.
pub record ChatRequest : Type 0 where
  pub model : String
  pub max_tokens : ℕ
  pub messages : List Payload
  pub tools : Option (List Value)

-- What the provider reads of a completion (the `openai` package's objects).
pub record Choice : Type 0 where
  pub content : Option Text
  pub tool_calls : Value
  pub finish_reason : Value

pub record Usage : Type 0 where
  pub prompt_tokens : ℤ
  pub completion_tokens : ℤ

pub record Completion : Type 0 where
  pub choices : List Choice
  pub model : Text
  pub usage : Option Usage

-- self._client.chat.completions.create
abbrev pub Create : Type 0 → Type 0
Create E = ChatRequest → E → Answer Completion × E

-- The checks of the constructor, which give the model.
unfoldable pub model_of : ProviderConfiguration → Result String
model_of c =
    if is_missing c.api_key
    then raised (
        error provider_configuration_error (
          lit "OpenAIProvider requires configuration.api_key. It does not fall back to the "
          ∷ lit "OPENAI_API_KEY environment variable, so credentials always flow through the "
          ∷ lit "kernel's own configuration system."
          ∷ []))
    else chosen_model c.default_model
        (lit "OpenAIProvider requires configuration.default_model (e.g. 'gpt-4o')." ∷ [])

abbrev request_error : ErrorFactory
request_error = fault_of openai provider_fault

abbrev response_error : ErrorFactory
response_error = fault_of openai response_fault

abbrev prompt_tokens_of : Option Usage → ℤ
prompt_tokens_of none = pos 0
prompt_tokens_of (some u) = u.prompt_tokens

abbrev completion_tokens_of : Option Usage → ℤ
completion_tokens_of none = pos 0
completion_tokens_of (some u) = u.completion_tokens

module _ (py : Builtins) where
  -- The part of `invoke` in front of the request.
  unfoldable pub prepare : String → Payload → Result ChatRequest
  prepare model request =
      chain
        (messages_to_chat py request_error (get_value "messages" request)
          (get_value "system" request))
        (λ messages. chain (max_tokens_of request_error request) (λ max_tokens.
          chain (tools_to_chat py request_error (get_value "tools" request)) (λ tools.
            returned (record {
              model = model;
              max_tokens = max_tokens;
              messages = messages;
              tools = tools;
            }))))

  unfoldable pub respond : Completion → Choice → List ToolCall → Result Payload
  respond completion choice calls =
      let text = text_or_empty choice.content in
      if is_empty_text text && is_nil calls
      then raised (response_error (lit "OpenAI response contained no text content." ∷ []))
      else returned (
          ("text", str text)
          ∷ ("tool_calls", calls_value calls)
          ∷ ("model", str completion.model)
          ∷ ("finish_reason", choice.finish_reason)
          ∷ ("prompt_tokens", int (prompt_tokens_of completion.usage))
          ∷ ("completion_tokens", int (completion_tokens_of completion.usage))
          ∷ [])

  -- completion.choices[0], and what is made of it
  abbrev pub first_choice : Completion → List Choice → Result Payload
  first_choice completion [] = raised (error other_error (lit "list index out of range" ∷ []))
  first_choice completion (choice ∷ _) =
      chain (tool_calls_from_chat py response_error choice.tool_calls) (respond completion choice)

  -- The part of `invoke` behind the request.
  unfoldable pub conclude : Answer Completion → Result Payload
  unfolding respond
  conclude (errored e) = raised (of_sdk_error openai "OpenAI" e)
  conclude (answered completion) = first_choice completion completion.choices

  module _ {E : Type 0} (create : Create E) where
    unfoldable pub invoke : String → Payload → Call E Payload
    unfolding prepare conclude
    invoke model request = transact create conclude (prepare model request)

    unfoldable pub check_health : String → Call E ProviderHealthCheck
    check_health model env =
        let (answer, env') =
          create
            (record {
              model = model;
              max_tokens = 1;
              messages = message_of (lit "user" ∷ []) (word "ping") ∷ [];
              tools = none;
            })
            env in
        (health_of "openai" answer, env')

    -- OpenAIProvider, as its constructor makes it with a client that it is given.
    unfoldable pub open_ai_provider : ProviderConfiguration → Result (BaseProvider E)
    unfolding model_of invoke
    open_ai_provider c = chain (model_of c) λ model.
        returned (record { name = "openai"; supports_tool_calls = true; invoke = invoke model })
