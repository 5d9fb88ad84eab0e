-- ===== src/Events.antt =====
-- src/mellivor_kernel/events
pub mod Event
pub mod Subscriptions
