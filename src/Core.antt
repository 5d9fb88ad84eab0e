-- ===== src/Core.antt =====
-- src/mellivor_kernel/core
pub mod Runtime
pub mod Container
