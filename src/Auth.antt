-- ===== src/Auth.antt =====
-- Who may do what, and with which session (internal/platform/auth).
pub mod Database
pub mod Roles
pub mod Frame
pub mod TenantRoles
pub mod Holdings
pub mod Refinement
pub mod Revocation
pub mod Horizon
pub mod Revoked
pub mod Accounts
pub mod Erasure
pub mod Tokens
pub mod Triples
pub mod Locked
pub mod Locking
pub mod Untouched
pub mod Bystanders
pub mod Afterwards
pub mod Refused
pub mod Login
pub mod Admitted
mod Examples
mod SessionExamples
mod AccountExamples
