-- ===== src/Providers/Gemini/Answers.antt =====
-- src/mellivor_kernel/providers/gemini.py: what `invoke` makes of a response
use mellivor_kernel.Prelude.{ℤ, pos, String, Option, none, some, List, [], ◌∷◌, ◌++◌, if◌then◌else◌}
use mellivor_kernel.Python.{
  Payload, Value, none_value, str, int, word, Text, lit, is_empty_text, gemini, response_fault,
  Result, returned, raised,
}
use mellivor_kernel.Providers.ChatCompletions.{ErrorFactory}
use mellivor_kernel.Providers.Vendor.{fault_of}

-- What the provider reads of a response (the `google-genai` package's objects): `text` is a property
-- there, a reason is the value of a member of an enumeration, and no candidates is the empty list.
pub record GeminiCandidate : Type 0 where
  pub finish_reason : Option Text

pub record UsageMetadata : Type 0 where
  pub prompt_token_count : Option ℤ
  pub candidates_token_count : Option ℤ

pub record GeminiResponse : Type 0 where
  pub text : Option Text
  pub candidates : List GeminiCandidate
  pub block_reason : Option Text
  pub usage_metadata : Option UsageMetadata

abbrev response_error : ErrorFactory
response_error = fault_of gemini response_fault

-- `reason.value if reason else None`
abbrev reason_value : Option Text → Option Text
reason_value none = none
reason_value (some t) = if is_empty_text t then none else some t

abbrev reason_shown : Option Text → Text
reason_shown none = lit "None" ∷ []
reason_shown (some t) = t

abbrev reason_object : Option Text → Value
reason_object none = none_value
reason_object (some t) = str t

-- `usage.…_token_count if usage and usage.…_token_count else 0`
abbrev count_of : Option ℤ → ℤ
count_of none = pos 0
count_of (some n) = n

abbrev prompt_count : Option UsageMetadata → ℤ
prompt_count none = pos 0
prompt_count (some u) = count_of u.prompt_token_count

abbrev candidates_count : Option UsageMetadata → ℤ
candidates_count none = pos 0
candidates_count (some u) = count_of u.candidates_token_count

-- `if not text`
abbrev pub no_text : GeminiResponse → List GeminiCandidate → Result Payload
no_text response [] = raised (
    response_error (
      lit "Gemini blocked the prompt before generating a response (block_reason="
      ∷ (reason_shown (reason_value response.block_reason) ++ lit ")." ∷ [])))
no_text response (candidate ∷ _) = raised (
    response_error (
      lit "Gemini response contained no text content (finish_reason="
      ∷ (reason_shown (reason_value candidate.finish_reason) ++ lit ")." ∷ [])))

abbrev pub with_text : String → Text → GeminiResponse → List GeminiCandidate → Result Payload
with_text model text response [] = raised (
    response_error (
      lit "Gemini response contained text but no candidates -- unexpected SDK response shape."
      ∷ []))
with_text model text response (candidate ∷ _) = returned (
    ("text", str text)
    ∷ ("model", word model)
    ∷ ("finish_reason", reason_object (reason_value candidate.finish_reason))
    ∷ ("prompt_tokens", int (prompt_count response.usage_metadata))
    ∷ ("completion_tokens", int (candidates_count response.usage_metadata))
    ∷ [])

abbrev pub respond_to : String → Option Text → GeminiResponse → Result Payload
respond_to model none response = no_text response response.candidates
respond_to model (some text) response =
    if is_empty_text text
    then no_text response response.candidates
    else with_text model text response response.candidates
