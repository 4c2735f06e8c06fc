-- ===== src/Traversal.antt =====
-- internal/graph: read-only traversals of the dependency graph, and its cycles.
pub mod Types
pub mod Service
pub mod Cycles
