-- ===== src/Providers/Local.antt =====
-- src/mellivor_kernel/providers/local.py: LocalProvider. The transport (`httpx`) is a parameter.
pub mod Answers
pub mod Post
pub mod Retries
pub mod Contract
use mellivor_kernel.Prelude.{
  ℕ, zero, suc, ◌+◌, ℤ, pos, negsuc, String, Bool, true, false, not, ◌&&◌, ◌||◌, Option, none, some,
  List, [], ◌∷◌, ◌++◌, keys, contains, is_nil, is_some, map, nat_eq, ◌==◌, if◌then◌else◌,
}
use mellivor_kernel.Python.{
  Payload, Value, bool, str, int, word, Text, lit, num, is_blank, is_empty_text, join_comma, sorted,
  Exception, error, other_error, provider_configuration_error, local_endpoint, provider_fault,
  authentication_fault, timeout_fault, connection_fault, vendor_error, ExceptionClass, Result,
  returned, raised, chain, Builtins, Loaded, get_or, get_value, is_true,
}
use mellivor_kernel.World.{Call}
use mellivor_kernel.Providers.Registry.{BaseProvider}
use mellivor_kernel.Providers.ToolCalling.{dict_value, elements}
use mellivor_kernel.Providers.ChatCompletions.{
  ErrorFactory, messages_to_chat, tools_to_chat, message_of,
}
use mellivor_kernel.Providers.Factory.{ProviderConfiguration}
use mellivor_kernel.Providers.Vendor.{
  fault_of, max_tokens_of, transact, ProviderHealthCheck, is_missing,
}
use mellivor_kernel.Providers.Local.Answers.{Response, normalize_response}
use mellivor_kernel.Providers.Local.Post.{LocalPost, Posted, Client, post, attempts_of}

-- What the constructor reads of `urllib.parse.urlsplit`, whose scheme is in lower case here.
pub record SplitUrl : Type 0 where
  pub scheme : String
  pub hostname : Option String
  pub username : Option String
  pub password : Option String
  pub query : String
  pub fragment : String

-- `strip_slashes` is `rstrip("/")`.
pub record Urls : Type 0 where
  pub urlsplit : String → Result SplitUrl
  pub strip_slashes : String → String

abbrev bad_configuration : {A : Type 0} → String → Result A
bad_configuration message = raised (error provider_configuration_error (lit message ∷ []))

unfoldable pub checked_endpoint : Urls → String → SplitUrl → Result Text
checked_endpoint urls base_url parsed =
    if not (contains parsed.scheme ("http" ∷ "https" ∷ [])) || is_missing parsed.hostname
    then bad_configuration "LocalProvider configuration.base_url must be an absolute HTTP(S) URL."
    else if is_some parsed.username || is_some parsed.password
    then bad_configuration "LocalProvider configuration.base_url must not contain user information."
    else if not (parsed.query == "") || not (parsed.fragment == "")
    then bad_configuration
        "LocalProvider configuration.base_url must not contain a query or fragment."
    else returned (lit (urls.strip_slashes base_url) ∷ lit "/chat/completions" ∷ [])

-- _chat_completions_endpoint
unfoldable pub chat_completions_endpoint : Urls → String → Result Text
unfolding checked_endpoint
chat_completions_endpoint urls base_url =
    chain (urls.urlsplit base_url) (checked_endpoint urls base_url)

abbrev pub bearer : Option String → List (String × Text)
bearer none = []
bearer (some key) =
    if is_empty_text (lit key ∷ [])
    then []
    else ("Authorization", lit "Bearer " ∷ lit key ∷ []) ∷ []

-- The fields that the constructor sets.
pub record LocalProvider : Type 0 where
  pub endpoint : Text
  pub model : String
  pub headers : Option (List (String × Text))
  pub max_retries : ℤ
  pub supports_tool_calls : Bool

abbrev pub no_model : Option String → Bool
no_model none = true
no_model (some model) = is_blank model

abbrev pub text_of_option : Option String → String
text_of_option none = ""
text_of_option (some s) = s

-- The request's fields that are not supported.
unfoldable pub unknown_fields : List String → List String
unknown_fields [] = []
unknown_fields (key ∷ rest) =
    let unknown = unknown_fields rest in
    if contains key ("messages" ∷ "max_tokens" ∷ "system" ∷ "tools" ∷ [])
    then unknown
    else key ∷ unknown

abbrev pub request_error : ErrorFactory
request_error = fault_of local_endpoint provider_fault

abbrev pub tools_field : Option (List Value) → Payload
tools_field none = []
tools_field (some tools) = ("tools", Value.sequence (elements tools)) ∷ []

abbrev pub body_of : String → List Payload → ℕ → Option (List Value) → Payload
body_of model messages max_tokens tools =
    (("model", word model)
      ∷ ("messages", Value.sequence (elements (map dict_value messages)))
      ∷ ("max_tokens", int (pos max_tokens))
      ∷ ("stream", bool false)
      ∷ [])
    ++ tools_field tools

-- `except LocalProviderError`
abbrev pub caught : Exception → ExceptionClass → Result ProviderHealthCheck
caught e (vendor_error local_endpoint fault) =
    returned (record { healthy = false; provider_name = "local"; detail = e.message })
caught e _ = raised e

abbrev pub health_of : Result Payload → Result ProviderHealthCheck
health_of (returned answer) =
    returned (record { healthy = true; provider_name = "local"; detail = [] })
health_of (raised e) = caught e e.class

abbrev pub arguments_of : LocalProvider → Payload → LocalPost
arguments_of provider body = record {
  endpoint = provider.endpoint;
  json = body;
  headers = provider.headers;
}

module _ (py : Builtins) where
  -- __init__; `injected` says whether a client was given, which then gets the headers with each post.
  unfoldable pub make_local : Urls → Bool → ProviderConfiguration → Result LocalProvider
  unfolding chat_completions_endpoint is_true
  make_local urls injected c =
      if no_model c.default_model
      then bad_configuration "LocalProvider requires configuration.default_model."
      else if is_missing c.base_url
      then bad_configuration
          "LocalProvider requires configuration.base_url for an already-running endpoint."
      else chain (chat_completions_endpoint urls (text_of_option c.base_url)) λ endpoint.
        returned (record {
          endpoint = endpoint;
          model = text_of_option c.default_model;
          headers =
              if injected
              then some (
                  ("Accept", lit "application/json" ∷ [])
                  ∷ ("Content-Type", lit "application/json" ∷ [])
                  ∷ bearer c.api_key)
              else none;
          max_retries = c.max_retries;
          supports_tool_calls = is_true py (get_or "supports_tool_calls" (bool false) c.extra);
        })

  -- The part of `invoke` in front of the post.
  unfoldable pub prepare : LocalProvider → Payload → Result Payload
  unfolding unknown_fields
  prepare provider request =
      let unknown = sorted (unknown_fields (keys request)) in
      if not (is_nil unknown)
      then raised (
          request_error (
            lit "Unsupported local-provider request field(s): "
            ∷ (join_comma unknown ++ lit "." ∷ [])))
      else chain
          (messages_to_chat py request_error (get_value "messages" request)
            (get_value "system" request))
          (λ messages. chain (max_tokens_of request_error request) (λ max_tokens.
            chain (tools_to_chat py request_error (get_value "tools" request))
              (λ tools. returned (body_of provider.model messages max_tokens tools))))

  unfoldable pub check_status : Response → Result Payload
  check_status response =
      if nat_eq response.status_code 401 || nat_eq response.status_code 403
      then raised (
          fault_of local_endpoint authentication_fault (
            lit "Local inference endpoint rejected the configured credential (HTTP "
            ∷ num response.status_code
            ∷ lit ")."
            ∷ []))
      else if not response.is_success
      then raised (
          request_error (
            lit "Local inference endpoint request failed with HTTP "
            ∷ num response.status_code
            ∷ lit "."
            ∷ []))
      else normalize_response py response

  -- The part of `invoke` behind the post.
  unfoldable pub conclude : Result Response → Result Payload
  unfolding check_status
  conclude posted = chain posted check_status

  module _ {E : Type 0} (client : Client E) where
    -- self._post(payload)
    abbrev pub post_body : LocalProvider → Payload → Call E Response
    post_body provider body =
        post client (attempts_of provider.max_retries) (arguments_of provider body)

    unfoldable pub invoke : LocalProvider → Payload → Call E Payload
    unfolding prepare conclude
    invoke provider request = transact (post_body provider) conclude (prepare provider request)

    unfoldable pub check_health : LocalProvider → Call E ProviderHealthCheck
    unfolding invoke
    check_health provider env =
        let (r, env') =
          invoke provider
            ((
              "messages",
              Value.sequence
                  (elements (dict_value (message_of (lit "user" ∷ []) (word "ping")) ∷ [])),
            )
              ∷ ("max_tokens", int (pos 1))
              ∷ [])
            env in
        (health_of r, env')

    unfoldable pub local_provider : LocalProvider → BaseProvider E
    unfolding invoke
    local_provider provider = record {
      name = "local";
      supports_tool_calls = provider.supports_tool_calls;
      invoke = invoke provider;
    }
