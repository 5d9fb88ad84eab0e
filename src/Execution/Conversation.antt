-- ===== src/Execution/Conversation.antt =====
-- src/mellivor_kernel/execution/tool_loop.py: the values of a tool loop
use mellivor_kernel.Prelude.{ℕ, suc, ℤ, pos, Bool, Option, List, [], ◌∷◌}
use mellivor_kernel.Python.{
  Payload, Value, Text, lit, Result, returned, raised, error, tool_loop_error,
}
use mellivor_kernel.World.{Call}
use mellivor_kernel.Providers.ToolCalling.{ToolCall}

pub record ToolCallDecision : Type 0 where
  pub allowed : Bool
  pub reason : Option Text

pub record ToolCallRecord : Type 0 where
  pub called : ToolCall
  pub executed : Bool
  pub success : Bool
  pub result : Text

pub record ToolLoopResult : Type 0 where
  pub success : Bool
  pub text : Option Text
  pub messages : List Payload
  pub tool_calls : List ToolCallRecord
  pub iterations : ℕ
  pub exhausted : Bool
  pub error_text : Option Text

-- `max_tokens` is passed on unread.
pub record ToolLoopOptions (E : Type 0) : Type 0 where
  pub max_iterations : ℤ
  pub system : Option Text
  pub max_tokens : Option Value
  pub before_tool_call : ToolCall → Call E ToolCallDecision

-- ToolLoopOptions.__post_init__
unfoldable pub make_loop_options : {E : Type 0} → ToolLoopOptions E → Result (ToolLoopOptions E)
make_loop_options o = elim o.max_iterations [
  | pos (suc n) ↦ returned o
  | _ ↦
      raised (error tool_loop_error (lit "ToolLoopOptions.max_iterations must be at least 1." ∷ []))
]
