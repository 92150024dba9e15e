-- ===== src/Tenancy.antt =====
-- Row-level tenant isolation (internal/platform/tenancy): what a statement of the ORM may reach.
pub mod Scope
pub mod Targets
pub mod Mentions
pub mod Confined
pub mod Stamp
mod Examples
