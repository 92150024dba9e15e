-- ===== src/Storage.antt =====
-- The adapter of the SDK's store to the ORM (internal/platform/storage/gorm.go).
pub mod Adapter
pub mod Guards
mod Examples
