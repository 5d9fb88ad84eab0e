-- ===== src/Tools/Pipeline.antt =====
-- src/mellivor_kernel/tools/pipeline.py. `_finish` logs a result and returns it; logging is left
-- out, so it does not show.
pub mod Gate
pub mod Total
use mellivor_kernel.Prelude.{
  ℕ, ℤ, pos, sub_ℕ, String, Bool, true, false, Option, none, some, List, [], ◌∷◌, ◌++◌,
  if◌then◌else◌,
}
use mellivor_kernel.Python.{
  Payload, Text, lit, str, strs, join_comma, sorted, Exception, Result, returned, raised, Action,
  raise, lift, attempt, ◌>>=◌, is_tool_validation_error,
}
use mellivor_kernel.World.{World, Call, call, tool_validated, tool_executed}
use mellivor_kernel.Tools.Permissions.{Permission, permission_values, missing_permissions}
use mellivor_kernel.Tools.Base.{BaseTool, ToolResult, make_tool_result}

-- `time.perf_counter()`, in ticks
abbrev pub Timer : Type 0 → Type 0
Timer E = E → ℕ × E

abbrev pub read_timer : {E : Type 0} → Timer E → Action (World E) ℕ
read_timer timer w = let (now, env') = timer w.env in (returned now, record w { env = env' })

-- ToolResult(success=False, error=…, execution_time_seconds=…, metadata=…)
abbrev pub failed_result : Text → ℤ → Payload → ToolResult
failed_result message time metadata = record {
  success = false;
  payload = none;
  error_text = some message;
  execution_time = time;
  metadata = metadata;
}

abbrev pub stage : String → Payload
stage name = ("stage", str (lit name ∷ [])) ∷ []

-- The denial names the missing permissions, sorted.
abbrev pub denied_result : List Permission → ToolResult
denied_result missing =
    let names = sorted (permission_values missing) in
    failed_result (lit "Missing required permissions: " ∷ (join_comma names ++ lit "." ∷ []))
      (pos 0)
      (("stage", str (lit "permission_check" ∷ [])) ∷ ("missing_permissions", strs names) ∷ [])

module _ {E : Type 0} (timer : Timer E) (tool : BaseTool E) (request : Payload) where
  -- The outcome of `tool.execute`, with the time that it took.
  timed_result : Result ToolResult → ℤ → Result ToolResult
  timed_result (raised e) elapsed =
      make_tool_result (failed_result e.message elapsed (stage "execute"))
  timed_result (returned r) elapsed = make_tool_result (record r { execution_time = elapsed })

  execute_timed : Action (World E) ToolResult
  execute_timed = do
    started ← read_timer timer
    outcome ← attempt (call (tool_executed tool.id) (tool.execute request))
    stopped ← read_timer timer
    lift (timed_result outcome (sub_ℕ stopped started))

  -- The code behind the permission check, by the missing permissions.
  after_permissions : List Permission → Action (World E) ToolResult
  after_permissions [] = execute_timed
  after_permissions (p ∷ ps) = lift (make_tool_result (denied_result (p ∷ ps)))

  -- The code behind the `try` of `tool.validate`, by the outcome of that call.
  after_validate : List Permission → Result Unit → Action (World E) ToolResult
  after_validate granted (raised e) =
      if is_tool_validation_error e.class
      then lift (make_tool_result (failed_result e.message (pos 0) (stage "validate")))
      else raise e
  after_validate granted (returned _) =
      after_permissions (missing_permissions tool.permissions granted)

  unfoldable pub run : List Permission → Action (World E) ToolResult
  unfolding after_validate after_permissions execute_timed timed_result
  run granted = do
    validated ← attempt (call (tool_validated tool.id) (tool.validate request))
    after_validate granted validated
