-- ===== src/AiEngine.antt =====
-- src/mellivor_kernel/ai_engine
pub mod Fleet
pub mod Owners
pub mod Engine
pub mod Builder
