-- ===== src/Audit.antt =====
-- internal/audit and the audit part of internal/store/postgres.
pub mod Hash
pub mod Verifier
pub mod Resolve
pub mod Tables
pub mod Appender
pub mod Anchor
pub mod Service
