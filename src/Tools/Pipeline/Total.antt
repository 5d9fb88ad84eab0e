-- ===== src/Tools/Pipeline/Total.antt =====
-- The pipeline returns a result, for tools that keep their contract; and what it does for others.
use mellivor_kernel.Prelude.{
  ◌≡◌, ◌≢◌, ◌≤◌, refl, true, false, [], ◌∷◌, List, arith, pos, ℤ, is_negative,
}
use mellivor_kernel.Python.{
  Payload, Exception, Result, returned, raised, error, has_text, is_blank_text, Text, lit,
  is_tool_validation_error, tool_validation_error, Returns,
}
use mellivor_kernel.World.{World}
use mellivor_kernel.Tools.Permissions.{Permission, missing_permissions}
use mellivor_kernel.Tools.Permissions.Sets.{Covers, missing_permissions-nil_iff}
use mellivor_kernel.Tools.Base.{BaseTool, ToolResult, make_tool_result, IsValidToolResult}
use mellivor_kernel.Tools.Pipeline.{
  Timer, run, failed_result, stage, denied_result, timed_result, execute_timed, after_permissions,
  after_validate,
}

-- The contract of `BaseTool`: `validate` raises ToolValidationErrors only, exceptions have a text,
-- a ToolResult has passed its constructor, and `perf_counter` never goes back.
pub record IsWellBehaved {E : Type 0} (timer : Timer E) (tool : BaseTool E) : Type 0 where
  pub validate_error :
      (p : Payload) (env : E) (e : Exception)
      → (tool.validate p env).0 ≡ raised e
      → (is_tool_validation_error e.class ≡ true) × (is_blank_text e.message ≡ false)
  pub execute_error :
      (p : Payload) (env : E) (e : Exception)
      → (tool.execute p env).0 ≡ raised e
      → is_blank_text e.message ≡ false
  pub execute_result :
      (p : Payload) (env : E) (r : ToolResult)
      → (tool.execute p env).0 ≡ returned r
      → IsValidToolResult r
  pub timer_monotone :
      (p : Payload) (env : E) → (timer env).0 ≤ (timer (tool.execute p (timer env).1).1).0

module _ {E : Type 0} (timer : Timer E) (tool : BaseTool E) (request : Payload) where
  timed_result-Returns :
      (o : Result ToolResult) (elapsed : ℤ)
      → is_negative elapsed ≡ false
      → ((e : Exception) → o ≡ raised e → is_blank_text e.message ≡ false)
      → ((r : ToolResult) → o ≡ returned r → IsValidToolResult r)
      → Returns IsValidToolResult (timed_result timer tool request o elapsed)
  unfolding timed_result make_tool_result has_text
  timed_result-Returns (raised e) elapsed time on_error on_result = ground (arith, on_error e refl)
  timed_result-Returns (returned r) elapsed time on_error on_result =
      ground (arith, (on_result r refl).failed, (on_result r refl).succeeded)

  execute_timed-Returns :
      (w : World E)
      → IsWellBehaved timer tool
      → Returns IsValidToolResult (execute_timed timer tool request w).0
  unfolding execute_timed
  execute_timed-Returns w h =
      timed_result-Returns _ _ (ground (arith, h.timer_monotone request w.env))
        (h.execute_error request (timer w.env).1) (h.execute_result request (timer w.env).1)

  after_permissions-Returns :
      (missing : List Permission) (w : World E)
      → IsWellBehaved timer tool
      → Returns IsValidToolResult (after_permissions timer tool request missing w).0
  unfolding after_permissions make_tool_result has_text is_blank_text
  after_permissions-Returns [] w h = execute_timed-Returns w h
  after_permissions-Returns (p ∷ ps) w h = ground arith

  after_validate-Returns :
      (granted : List Permission) (v : Result Unit) (w : World E)
      → IsWellBehaved timer tool
      → ((e : Exception)
          → v ≡ raised e
          → (is_tool_validation_error e.class ≡ true) × (is_blank_text e.message ≡ false))
      → Returns IsValidToolResult (after_validate timer tool request granted v w).0
  unfolding after_validate make_tool_result has_text
  after_validate-Returns granted (raised e) w h on_error = ground (arith, on_error e refl)
  after_validate-Returns granted (returned _) w h on_error = after_permissions-Returns _ w h

  -- For a tool that keeps its contract the pipeline returns a result that its constructor accepts,
  -- and never raises.
  pub run_total :
      (granted : List Permission) (w : World E)
      → IsWellBehaved timer tool
      → Returns IsValidToolResult (run timer tool request granted w).0
  unfolding run
  run_total granted w h = after_validate-Returns granted _ _ h (h.validate_error request w.env)

  -- Where `validate` raises a ToolValidationError whose text is not blank, the result is a failure
  -- with that text and the stage "validate".
  pub run_invalid :
      (granted : List Permission) (w : World E) (message : Text)
      → (tool.validate request w.env).0 ≡ raised (error tool_validation_error message)
      → is_blank_text message ≡ false
      → (run timer tool request granted w).0
        ≡ returned (failed_result message (pos 0) (stage "validate"))
  unfolding run make_tool_result has_text
  run_invalid granted w message e h = ground arith

  run_missing_denied :
      (granted : List Permission) (w : World E)
      → (tool.validate request w.env).0 ≡ returned tt
      → missing_permissions tool.permissions granted ≢ []
      → (run timer tool request granted w).0
        ≡ returned (denied_result (missing_permissions tool.permissions granted))
  unfolding run make_tool_result has_text is_blank_text
  run_missing_denied granted w e h = ground arith

  -- Where the validation passes and the granted permissions do not cover the declared ones, the
  -- result is the denial that names the missing ones.
  pub run_denied :
      (granted : List Permission) (w : World E)
      → (tool.validate request w.env).0 ≡ returned tt
      → ¬ Covers granted tool.permissions
      → (run timer tool request granted w).0
        ≡ returned (denied_result (missing_permissions tool.permissions granted))
  run_denied granted w e lacks = run_missing_denied granted w e (λ none_missing.
      lacks ((missing_permissions-nil_iff tool.permissions granted).0 none_missing))

  -- Where a tool's code raises an exception whose text is blank, no result is returned: the
  -- constructor of the result raises a ToolValidationError out of the pipeline.
  pub run_blank_error :
      (granted : List Permission) (w : World E) (e : Exception)
      → (tool.validate request w.env).0 ≡ returned tt
      → missing_permissions tool.permissions granted ≡ []
      → (tool.execute request (timer (tool.validate request w.env).1).1).0 ≡ raised e
      → is_blank_text e.message ≡ true
      → (run timer tool request granted w).0
        ≡ raised (
            error tool_validation_error
              (lit "A failed ToolResult must include a non-empty `error` message." ∷ []))
  unfolding run make_tool_result has_text
  run_blank_error granted w e valid covered failed blank = ground arith
