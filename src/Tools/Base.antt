-- ===== src/Tools/Base.antt =====
-- src/mellivor_kernel/tools/base.py, result.py and metadata.py
use mellivor_kernel.Prelude.{
  String, ◌≡◌, Bool, true, false, not, ◌&&◌, List, Option, none, [], ◌∷◌, ℤ, is_negative, is_some,
  arith, if◌then◌else◌,
}
use mellivor_kernel.Python.{
  Payload, Text, lit, seconds, has_text, Result, returned, raised, error, tool_validation_error,
}
use mellivor_kernel.World.{Call}
use mellivor_kernel.Tools.Permissions.{Permission}

pub record ToolResult : Type 0 where
  pub success : Bool
  pub payload : Option Payload
  pub error_text : Option Text
  pub execution_time : ℤ
  pub metadata : Payload

-- __post_init__
unfoldable pub make_tool_result : ToolResult → Result ToolResult
make_tool_result r =
    if not r.success && not (has_text r.error_text)
    then raised (
        error tool_validation_error
          (lit "A failed ToolResult must include a non-empty `error` message." ∷ []))
    else if r.success && is_some r.error_text
    then raised
        (error tool_validation_error (lit "A successful ToolResult must not set `error`." ∷ []))
    else if is_negative r.execution_time
    then raised (
        error tool_validation_error (
          lit "execution_time_seconds must be non-negative, got "
          ∷ seconds r.execution_time
          ∷ lit "."
          ∷ []))
    else returned r

-- What the constructor guarantees.
pub record IsValidToolResult (r : ToolResult) : Type 0 where
  pub failed : r.success ≡ false → has_text r.error_text ≡ true
  pub succeeded : r.success ≡ true → r.error_text ≡ none
  pub timed : is_negative r.execution_time ≡ false

pub make_tool_result-IsValidToolResult :
    (r : ToolResult) {r' : ToolResult}
    → make_tool_result r ≡ returned r'
    → (r ≡ r') × IsValidToolResult r
unfolding make_tool_result
make_tool_result-IsValidToolResult r h = ground arith

-- A tool: its declared properties, and the two methods that its author writes. What a tool gets
-- from its ToolContext (settings, logger, runtime, services) is part of the environment `E`.
pub record BaseTool (E : Type 0) : Type 0 where
  pub id : String
  pub name : String
  pub version : String
  pub description : String
  pub capabilities : List String
  pub permissions : List Permission
  pub input_schema : Payload
  pub validate : Payload → Call E Unit
  pub execute : Payload → Call E ToolResult

pub record ToolMetadata : Type 0 where
  pub id : String
  pub name : String
  pub version : String
  pub description : String
  pub capabilities : List String
  pub permissions : List Permission

-- BaseTool.metadata
unfoldable pub metadata : {E : Type 0} → BaseTool E → ToolMetadata
metadata t = record {
  id = t.id;
  name = t.name;
  version = t.version;
  description = t.description;
  capabilities = t.capabilities;
  permissions = t.permissions;
}
