-- ===== src/Modulekit.antt =====
-- The helpers of the module kit (pkg/modulekit) that work within one transaction.
pub mod Transactions
pub mod Idempotency
pub mod Commits
pub mod ExactlyOnce
pub mod Projection
pub mod Monotone
pub mod Calm
mod Examples
