-- ===== src/Execution/Result.antt =====
-- src/mellivor_kernel/execution/result.py
use mellivor_kernel.Prelude.{
  ◌≡◌, Bool, true, false, not, ◌&&◌, Option, none, [], ◌∷◌, ℤ, is_negative, is_some, arith,
  if◌then◌else◌,
}
use mellivor_kernel.Python.{
  Payload, Text, lit, seconds, has_text, Result, returned, raised, error,
  execution_validation_error,
}

pub record ExecutionResult : Type 0 where
  pub success : Bool
  pub payload : Option Payload
  pub error_text : Option Text
  pub execution_time : ℤ
  pub metadata : Payload

-- __post_init__
unfoldable pub make_result : ExecutionResult → Result ExecutionResult
make_result r =
    if not r.success && not (has_text r.error_text)
    then raised (
        error execution_validation_error
          (lit "A failed ExecutionResult must include a non-empty `error` message." ∷ []))
    else if r.success && is_some r.error_text
    then raised (
        error execution_validation_error
          (lit "A successful ExecutionResult must not set `error`." ∷ []))
    else if is_negative r.execution_time
    then raised (
        error execution_validation_error (
          lit "execution_time_seconds must be non-negative, got "
          ∷ seconds r.execution_time
          ∷ lit "."
          ∷ []))
    else returned r

-- What the constructor guarantees: an error text exactly where the execution failed.
pub record IsValidResult (r : ExecutionResult) : Type 0 where
  pub failed : r.success ≡ false → has_text r.error_text ≡ true
  pub succeeded : r.success ≡ true → r.error_text ≡ none
  pub timed : is_negative r.execution_time ≡ false

pub make_result-IsValidResult :
    (r : ExecutionResult) {r' : ExecutionResult}
    → make_result r ≡ returned r'
    → (r ≡ r') × IsValidResult r
unfolding make_result
make_result-IsValidResult r h = ground arith
