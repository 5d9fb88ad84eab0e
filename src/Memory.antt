-- ===== src/Memory.antt =====
-- src/mellivor_kernel/memory
pub mod Entry
pub mod Store
pub mod Facade
