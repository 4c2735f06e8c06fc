-- ===== src/Policy.antt =====
-- internal/policy: the automation that reacts to committed events.
pub mod Types
pub mod Tables
pub mod Consumer
pub mod Actions
pub mod Executor
