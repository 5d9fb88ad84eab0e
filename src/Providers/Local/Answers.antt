-- ===== src/Providers/Local/Answers.antt =====
-- src/mellivor_kernel/providers/local.py: _normalize_response
use mellivor_kernel.Prelude.{
  ℕ, pos, String, Bool, ◌&&◌, Option, none, some, List, [], ◌∷◌, is_nil, if◌then◌else◌,
}
use mellivor_kernel.Python.{
  Payload, Value, none_value, str, int, mapping, as_fields, items, Text, lit, quoted, is_empty_text,
  local_endpoint, response_fault, Result, returned, raised, chain, Builtins, Loaded, loaded,
  malformed, failed, word, as_mapping, as_sequence, get_or, get_value,
}
use mellivor_kernel.Providers.ToolCalling.{ToolCall}
use mellivor_kernel.Providers.ChatCompletions.{ErrorFactory}
use mellivor_kernel.Providers.ChatCompletions.Calls.{tool_calls_from_chat}
use mellivor_kernel.Providers.Vendor.{fault_of, calls_value}

-- What the provider reads of an `httpx.Response`; `json` is what its method comes to.
pub record Response : Type 0 where
  pub status_code : ℕ
  pub is_success : Bool
  pub json : Loaded

abbrev pub response_error : ErrorFactory
response_error = fault_of local_endpoint response_fault

abbrev pub bad_response : {A : Type 0} → String → Result A
bad_response message = raised (response_error (lit message ∷ []))

-- _token_count
unfoldable pub token_count : Value → String → Result ℕ
token_count (int (pos n)) field_name = returned n
token_count _ field_name = raised (
    response_error (
      lit "Local inference response usage field "
      ∷ quoted field_name
      ∷ lit " must be a non-negative integer."
      ∷ []))

abbrev pub payload_of : Loaded → Result Payload
payload_of (loaded (mapping fields)) = returned (items fields)
payload_of (loaded _) = bad_response "Local inference endpoint returned a non-object response."
payload_of malformed = bad_response "Local inference endpoint returned invalid JSON."
payload_of (failed e) = raised e

abbrev pub no_choice : Result Payload
no_choice = bad_response "Local inference response contained no usable choice."

abbrev pub usable : Option Payload → Result Payload
usable none = no_choice
usable (some choice) = returned choice

-- The first choice.
abbrev pub choice_of : Option (List Value) → Result Payload
choice_of none = no_choice
choice_of (some []) = no_choice
choice_of (some (choice ∷ _)) = usable (as_mapping choice)

abbrev pub message_in : Value → Result Payload
message_in (mapping fields) = returned (items fields)
message_in _ = bad_response "Local inference response contained no text content."

-- raw_text or ""
abbrev pub text_in : Value → Result Text
text_in none_value = returned []
text_in (str t) = returned t
text_in _ = bad_response "Local inference response field 'content' must be a string."

abbrev pub bad_model : Result Text
bad_model = bad_response "Local inference response field 'model' must be a non-empty string."

abbrev pub model_in : Value → Result Text
model_in (str t) = if is_empty_text t then bad_model else returned t
model_in _ = bad_model

abbrev pub finish_reason_in : Value → Result Value
finish_reason_in none_value = returned none_value
finish_reason_in (str t) = returned (str t)
finish_reason_in _ =
    bad_response "Local inference response field 'finish_reason' must be a string or null."

abbrev pub usage_in : Value → Result Payload
usage_in none_value = returned []
usage_in (mapping fields) = returned (items fields)
usage_in _ = bad_response "Local inference response field 'usage' must be an object."

-- The part of `_normalize_response` behind the text and the tool calls.
unfoldable pub metadata_of : Payload → Payload → Result Payload
unfolding token_count
metadata_of payload choice = chain (model_in (get_or "model" (word "") payload)) λ model.
    chain (finish_reason_in (get_value "finish_reason" choice)) λ finish_reason.
      chain (usage_in (get_or "usage" (mapping (as_fields [])) payload)) λ usage.
        chain (token_count (get_or "prompt_tokens" (int (pos 0)) usage) "prompt_tokens") λ prompt.
          chain (token_count (get_or "completion_tokens" (int (pos 0)) usage) "completion_tokens")
            λ completion. returned (
              ("model", str model)
              ∷ ("finish_reason", finish_reason)
              ∷ ("prompt_tokens", int (pos prompt))
              ∷ ("completion_tokens", int (pos completion))
              ∷ [])

unfoldable pub said_of : Payload → Payload → Text → List ToolCall → Result Payload
unfolding metadata_of
said_of payload choice text calls =
    if is_empty_text text && is_nil calls
    then bad_response "Local inference response contained no text content."
    else chain (metadata_of payload choice)
        λ rest. returned (("text", str text) ∷ ("tool_calls", calls_value calls) ∷ rest)

module _ (py : Builtins) where
  -- _normalize_response
  unfoldable pub normalize_response : Response → Result Payload
  unfolding said_of
  normalize_response response = chain (payload_of response.json) λ payload.
      chain (choice_of (as_sequence (get_value "choices" payload))) λ choice.
        chain (message_in (get_value "message" choice)) λ message.
          chain (text_in (get_value "content" message)) λ text.
            chain (tool_calls_from_chat py response_error (get_value "tool_calls" message))
              λ calls. said_of payload choice text calls
