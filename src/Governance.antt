-- ===== src/Governance.antt =====
-- internal/governance and internal/store/postgres/governance_store.go.
pub mod Transition
pub mod Engine
pub mod Tables
