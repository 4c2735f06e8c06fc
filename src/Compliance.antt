-- ===== src/Compliance.antt =====
-- internal/compliance: evidence on a governed object, composed from what the other parts persisted.
pub mod Evidence
pub mod Service
pub mod Decides
