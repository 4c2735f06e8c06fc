-- ===== src/Timeline.antt =====
-- internal/timeline: the read model of an operation's life.
pub mod Entries
pub mod Sources
pub mod Service
pub mod Paging
