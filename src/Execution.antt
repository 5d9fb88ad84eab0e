-- ===== src/Execution.antt =====
-- src/mellivor_kernel/execution
pub mod Request
pub mod Result
pub mod Dispatch
pub mod Engine
pub mod Conversation
pub mod ToolLoop
