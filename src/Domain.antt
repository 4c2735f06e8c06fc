-- ===== src/Domain.antt =====
-- internal/domain: the value types that the packages share.
pub mod Enums
pub mod Errors
pub mod Objects
pub mod AuditTypes
