-- ===== src/Tools.antt =====
-- src/mellivor_kernel/tools
pub mod Permissions
pub mod Base
pub mod Registry
pub mod Pipeline
