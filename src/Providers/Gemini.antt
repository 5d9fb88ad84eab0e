-- ===== src/Providers/Gemini.antt =====
-- src/mellivor_kernel/providers/gemini.py: GeminiProvider
pub mod Answers
pub mod Contract
use mellivor_kernel.Prelude.{
  ℕ, zero, ℤ, pos, String, Bool, true, false, not, ◌||◌, nat_eq, Option, none, some, List, [], ◌∷◌,
  ◌++◌, if◌then◌else◌,
}
use mellivor_kernel.Python.{
  Payload, Value, none_value, str, int, mapping, items, word, Text, lit, is_empty_text,
  is_blank_text, error, provider_configuration_error, gemini, provider_fault, response_fault,
  Exception, Result, returned, raised, chain, Builtins, get_value, is_word, as_sequence,
}
use mellivor_kernel.World.{Call}
use mellivor_kernel.Providers.Registry.{BaseProvider}
use mellivor_kernel.Providers.ChatCompletions.{ErrorFactory, collect}
use mellivor_kernel.Providers.Factory.{ProviderConfiguration}
use mellivor_kernel.Providers.Gemini.Answers.{GeminiResponse, respond_to}
use mellivor_kernel.Providers.Vendor.{
  Answer, answered, errored, SdkError, unauthenticated, timed_out, unreachable, refused, escaped,
  fault_of, of_sdk_error, max_tokens_of, ProviderHealthCheck, is_missing, chosen_model, transact,
  health_of,
}

-- types.Content with its one part, and what `generate_content` is called with
pub record Content : Type 0 where
  pub role : String
  pub text : Text

pub record GenerateRequest : Type 0 where
  pub model : String
  pub contents : List Content
  pub system_instruction : Option Text
  pub max_output_tokens : ℕ

-- How a call of the client ends: `code` is that of an APIError; the last is any other exception.
pub data GenerateOutcome : Type 0 where
  replied : GeminiResponse → GenerateOutcome
  api_error : (code : ℕ) → Text → GenerateOutcome
  timeout transport_error : Text → GenerateOutcome
  other_exception : Exception → GenerateOutcome

-- self._client.models.generate_content
abbrev pub Generate : Type 0 → Type 0
Generate E = GenerateRequest → E → GenerateOutcome × E

abbrev pub request_error : ErrorFactory
request_error = fault_of gemini provider_fault

abbrev refuse_request : {A : Type 0} → String → Result A
refuse_request message = raised (request_error (lit message ∷ []))

-- _AUTHENTICATION_STATUS_CODES, and the `except` clause of an APIError
abbrev pub api_error_of : ℕ → Text → SdkError
api_error_of code t = if nat_eq code 401 || nat_eq code 403 then unauthenticated t else refused t

abbrev pub gemini_answer : GenerateOutcome → Answer GeminiResponse
gemini_answer (replied response) = answered response
gemini_answer (api_error code t) = errored (api_error_of code t)
gemini_answer (timeout t) = errored (timed_out t)
gemini_answer (transport_error t) = errored (unreachable t)
gemini_answer (other_exception e) = errored (escaped e)

-- The checks of the constructor, which give the model.
unfoldable pub model_of : ProviderConfiguration → Result String
model_of c =
    if is_missing c.api_key
    then raised (
        error provider_configuration_error (
          lit "GeminiProvider requires configuration.api_key. It does not fall back to the "
          ∷ lit "GOOGLE_API_KEY/GEMINI_API_KEY environment variables, so credentials always flow "
          ∷ lit "through the kernel's own configuration system."
          ∷ []))
    else chosen_model c.default_model (
        lit "GeminiProvider requires configuration.default_model (e.g. 'gemini-2.0-flash-001')."
        ∷ [])

-- An entry of the conversation: a system message, or a content.
pub data Turn : Type 0 where
  instruction : Text → Turn
  said : Content → Turn

-- system_parts and contents
unfoldable pub instructions : List Turn → List Text
instructions [] = []
instructions (instruction t ∷ turns) = t ∷ instructions turns
instructions (_ ∷ turns) = instructions turns

unfoldable pub contents_of : List Turn → List Content
contents_of [] = []
contents_of (said c ∷ turns) = c ∷ contents_of turns
contents_of (_ ∷ turns) = contents_of turns

abbrev pub split_turns : List Text → List Content → Result (List Content × Option Text)
split_turns (_ ∷ _ ∷ _) contents =
    refuse_request "request['messages'] must include at most one message with role 'system'."
split_turns parts [] =
    refuse_request "request['messages'] must include at least one non-system message."
split_turns [] (c ∷ contents) = returned (c ∷ contents, none)
split_turns (t ∷ []) (c ∷ contents) = returned (c ∷ contents, some t)

-- The part of `invoke` behind the request.
unfoldable pub conclude : String → Answer GeminiResponse → Result Payload
conclude model (errored e) = raised (of_sdk_error gemini "Gemini" e)
conclude model (answered response) = respond_to model response.text response

-- `is_list` is `isinstance(…, list)` of a sequence.
module _ (py : Builtins) (is_list : Value → Bool) where
  -- _ROLE_MAP, behind the tests of role and content
  abbrev pub mapped : Value → Text → Result Turn
  mapped role content =
      if is_word py "system" role
      then returned (instruction content)
      else if is_word py "user" role
      then returned (said (record { role = "user"; text = content }))
      else if is_word py "assistant" role
      then returned (said (record { role = "model"; text = content }))
      else raised (
          request_error (
            lit "request['messages'] role "
            ∷ (py.repr role
                ++ lit " is not supported; expected 'system', 'user', or 'assistant'." ∷ [])))

  abbrev pub with_content : Value → Value → Result Turn
  with_content role (str content) = mapped role content
  with_content role _ =
      refuse_request "Each entry in request['messages'] must have a string 'content'."

  abbrev no_role : Result Turn
  no_role = refuse_request "Each entry in request['messages'] must have a non-empty string 'role'."

  abbrev pub with_role : Value → Value → Result Turn
  with_role (str role) content =
      if is_blank_text role then no_role else with_content (str role) content
  with_role _ content = no_role

  -- The body of the loop of `_translate_messages`.
  abbrev pub read_entry : Value → Result Turn
  read_entry (mapping fields) =
      with_role (get_value "role" (items fields)) (get_value "content" (items fields))
  read_entry _ = refuse_request "Each entry in request['messages'] must be a mapping."

  abbrev pub translate_list : Option (List Value) → Result (List Content × Option Text)
  translate_list none = refuse_request "request['messages'] must be a non-empty list."
  translate_list (some []) = refuse_request "request['messages'] must be a non-empty list."
  translate_list (some (v ∷ vs)) =
      chain (collect read_entry (v ∷ vs))
        λ turns. split_turns (instructions turns) (contents_of turns)

  -- _translate_messages, of the value of `messages`
  unfoldable pub translate_messages : Value → Result (List Content × Option Text)
  unfolding collect instructions contents_of
  translate_messages v = translate_list (if is_list v then as_sequence v else none)

  -- The part of `invoke` in front of the request.
  unfoldable pub prepare : String → Payload → Result GenerateRequest
  unfolding translate_messages
  prepare model request = chain (translate_messages (get_value "messages" request)) λ translated.
      chain (max_tokens_of request_error request) λ max_tokens. returned (record {
        model = model;
        contents = translated.0;
        system_instruction = translated.1;
        max_output_tokens = max_tokens;
      })

  module _ {E : Type 0} (generate : Generate E) where
    abbrev pub generate_answer : GenerateRequest → E → Answer GeminiResponse × E
    generate_answer request env =
        let (outcome, env') = generate request env in (gemini_answer outcome, env')

    unfoldable pub invoke : String → Payload → Call E Payload
    unfolding prepare conclude
    invoke model request = transact generate_answer (conclude model) (prepare model request)

    unfoldable pub check_health : String → Call E ProviderHealthCheck
    check_health model env =
        let (answer, env') =
          generate_answer
            (record {
              model = model;
              contents = record { role = "user"; text = lit "ping" ∷ [] } ∷ [];
              system_instruction = none;
              max_output_tokens = 1;
            })
            env in
        (health_of "gemini" answer, env')

    -- GeminiProvider, as its constructor makes it with a client that it is given.
    unfoldable pub gemini_provider : ProviderConfiguration → Result (BaseProvider E)
    unfolding model_of invoke
    gemini_provider c = chain (model_of c) λ model.
        returned (record { name = "gemini"; supports_tool_calls = false; invoke = invoke model })
