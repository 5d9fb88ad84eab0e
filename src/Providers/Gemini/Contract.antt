-- ===== src/Providers/Gemini/Contract.antt =====
-- What GeminiProvider sends and what it raises.
use mellivor_kernel.Prelude.{String, get, ◌≡◌, ◌≢◌, ◌⊎◌, false, Option, some, List, [], All}
use mellivor_kernel.Python.{
  Payload, word, str, Text, is_empty_text, Exception, Fault, gemini, vendor_error,
}
use mellivor_kernel.Providers.Vendor.{IsPositive}
use mellivor_kernel.Providers.Gemini.{Content, GenerateRequest, Turn, instruction, said}

abbrev Anything : {A : Type 0} → A → Type 0
Anything a = Unit

-- GeminiProviderError and its subclasses
abbrev pub IsGeminiError : Exception → Type 0
IsGeminiError e = (f : Fault) × (e.class ≡ vendor_error gemini f)

-- The two roles that the API knows.
abbrev pub IsSpoken : Content → Type 0
IsSpoken c = (c.role ≡ "user") ⊎ (c.role ≡ "model")

-- A request that the API's documentation allows: for this model, with some content, by the roles that
-- it knows, and with a positive bound on tokens.
pub record IsGenerateRequest (model : String) (r : GenerateRequest) : Type 0 where
  pub addressed : r.model ≡ model
  pub filled : r.contents ≢ []
  pub spoken : All IsSpoken r.contents
  pub bounded : IsPositive r.max_output_tokens

abbrev IsTurn : Turn → Type 0
IsTurn (instruction t) = Unit
IsTurn (said c) = IsSpoken c

abbrev IsTranslated : List Content × Option Text → Type 0
IsTranslated p = (p.0 ≢ []) × All IsSpoken p.0

-- An answer names the model that was asked, and its text is not empty.
pub record IsAnswer (model : String) (p : Payload) : Type 0 where
  pub text : Text
  pub told : get "text" p ≡ some (str text)
  pub filled : is_empty_text text ≡ false
  pub answered_by : get "model" p ≡ some (word model)
