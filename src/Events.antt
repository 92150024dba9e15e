-- ===== src/Events.antt =====
-- Events between modules (internal/kernel/events): the subjects that carry the tenant.
pub mod Subject
pub mod Isolation
mod Examples
