-- ===== src/Authority.antt =====
-- internal/authority: the authority of an object, computed from the dependency graph.
pub mod Graph
pub mod Store
pub mod ActiveSet
pub mod Clauses
pub mod Resolver
pub mod Evaluators
