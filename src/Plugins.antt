-- ===== src/Plugins.antt =====
-- src/mellivor_kernel/plugins
pub mod Capability
pub mod Version
pub mod Lifecycle
pub mod Registry
pub mod Loader
pub mod Sdk
