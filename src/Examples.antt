-- ===== src/Examples.antt =====
-- Concrete inputs, and the theorems at them.
pub mod Fixtures
pub mod Audits
pub mod Bindings
pub mod Operations
pub mod Authorities
pub mod Replacements
pub mod Deliveries
pub mod Dispatches
pub mod Timelines
pub mod Policies
pub mod Traversals
pub mod Compliances
