-- ===== src/Providers/Vendor.antt =====
-- src/mellivor_kernel/providers: what the concrete providers share, which are claude.py, openai.py,
-- gemini.py and local.py. The vendors' packages are parameters: a client answers, or raises one of
-- its errors.
pub mod Contract
use mellivor_kernel.Prelude.{
  ℕ, zero, suc, ℤ, pos, negsuc, ◌<◌, ◌≤◌, String, ◌≡◌, refl, Bool, true, false, subst, inl, inr,
  ◌⊎◌, ◌≢◌, ap, ◌&&◌, is_nil, Option, none, some, List, [], ◌∷◌, ◌++◌, map, All, get, arith,
  if◌then◌else◌,
}
use mellivor_kernel.Python.{
  Payload, Value, none_value, int, str, sequence, tool_call, items, as_fields, items-as_fields,
  Text, lit, is_empty_text, Exception, Vendor, Fault, authentication_fault, timeout_fault,
  connection_fault, provider_fault, vendor_error, provider_configuration_error, error, Result,
  returned, raised, Ends, get_or, Builtins, is_blank, is_blank_text, is_blank_piece,
  tool_calling_error, failed,
}
use mellivor_kernel.World.{Call}
use mellivor_kernel.Providers.ToolCalling.{ToolCall, IsCall, elements}
use mellivor_kernel.Providers.ChatCompletions.{ErrorFactory}

-- The exceptions of a vendor's package, by the `except` clause that takes them, with `str(exc)`;
-- one that is not the package's own is `escaped`.
pub data SdkError : Type 0 where
  unauthenticated timed_out unreachable refused : Text → SdkError
  escaped : Exception → SdkError

pub data Answer (A : Type 0) : Type 0 where
  answered : A → Answer A
  errored : SdkError → Answer A

-- The provider's own errors: ClaudeProviderError and its subclasses, and so on.
abbrev pub fault_of : Vendor → Fault → ErrorFactory
fault_of vendor fault message = error (vendor_error vendor fault) message

-- The `except` clauses of `invoke`, for the name of an API.
unfoldable pub of_sdk_error : Vendor → String → SdkError → Exception
of_sdk_error vendor api (unauthenticated t) =
    fault_of vendor authentication_fault
      (lit api ∷ lit " API rejected the configured credentials: " ∷ t)
of_sdk_error vendor api (timed_out t) =
    fault_of vendor timeout_fault (lit "Request to the " ∷ lit api ∷ lit " API timed out: " ∷ t)
of_sdk_error vendor api (unreachable t) =
    fault_of vendor connection_fault (lit "Could not reach the " ∷ lit api ∷ lit " API: " ∷ t)
of_sdk_error vendor api (refused t) =
    fault_of vendor provider_fault (lit api ∷ lit " API request failed: " ∷ t)
of_sdk_error vendor api (escaped e) = e

-- src/mellivor_kernel/providers/health.py
pub record ProviderHealthCheck : Type 0 where
  pub healthy : Bool
  pub provider_name : String
  pub detail : Text

-- not s, for an optional string
abbrev pub is_missing : Option String → Bool
is_missing none = true
is_missing (some s) = is_empty_text (lit s ∷ [])

abbrev pub chosen_model : Option String → Text → Result String
chosen_model none message = raised (error provider_configuration_error message)
chosen_model (some model) message =
    if is_empty_text (lit model ∷ [])
    then raised (error provider_configuration_error message)
    else returned model

abbrev pub text_or_empty : Option Text → Text
text_or_empty none = []
text_or_empty (some t) = t

-- The `except` clause of `check_health`, for the package's own errors.
abbrev pub health_of : {A : Type 0} → String → Answer A → Result ProviderHealthCheck
health_of name (answered a) =
    returned (record { healthy = true; provider_name = name; detail = [] })
health_of name (errored (escaped e)) = raised e
health_of name (errored (unauthenticated t)) =
    returned (record { healthy = false; provider_name = name; detail = t })
health_of name (errored (timed_out t)) =
    returned (record { healthy = false; provider_name = name; detail = t })
health_of name (errored (unreachable t)) =
    returned (record { healthy = false; provider_name = name; detail = t })
health_of name (errored (refused t)) =
    returned (record { healthy = false; provider_name = name; detail = t })

abbrev bad_max_tokens : ErrorFactory → Result ℕ
bad_max_tokens fault =
    raised (fault (lit "request['max_tokens'] must be a positive integer, if provided." ∷ []))

-- The check of `max_tokens`: an `int` that is no `bool`, above zero.
abbrev positive : ErrorFactory → Value → Result ℕ
positive fault (int (pos (suc n))) = returned (suc n)
positive fault _ = bad_max_tokens fault

-- request.get("max_tokens", _DEFAULT_MAX_TOKENS), checked
unfoldable pub max_tokens_of : ErrorFactory → Payload → Result ℕ
max_tokens_of fault request = positive fault (get_or "max_tokens" (int (pos 1024)) request)

abbrev pub IsPositive : ℕ → Type 0
IsPositive n = 0 < n

positive-Ends :
    (fault : ErrorFactory) (Q : Exception → Type 0) (v : Value)
    → Ends (λ n. Unit) Q (bad_max_tokens fault)
    → Ends IsPositive Q (positive fault v)
positive-Ends fault Q (int (pos (suc n))) h = omega arith
positive-Ends fault Q _ h = h

pub max_tokens_of-Ends :
    (fault : ErrorFactory) (Q : Exception → Type 0) (request : Payload)
    → Ends (λ n. Unit) Q (bad_max_tokens fault)
    → Ends IsPositive Q (max_tokens_of fault request)
unfolding max_tokens_of
max_tokens_of-Ends fault Q request h = positive-Ends fault Q _ h

-- A request that was prepared goes to the client, and the answer is concluded from.
abbrev pub transact :
    {E R A : Type 0} → (R → E → A × E) → (A → Result Payload) → Result R → Call E Payload
transact create conclude (raised e) env = (raised e, env)
transact create conclude (returned r) env =
    let (answer, env') = create r env in (conclude answer, env')

-- The tuple of tool calls in a response.
abbrev pub call_value : ToolCall → Value
call_value c = tool_call c.id c.name (as_fields c.arguments)

abbrev pub calls_value : List ToolCall → Value
calls_value calls = sequence (elements (map call_value calls))
