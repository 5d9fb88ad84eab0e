-- ===== src/Workflow.antt =====
-- src/mellivor_kernel/workflow
pub mod Definition
pub mod Options
pub mod Units
pub mod Pool
pub mod Engine
