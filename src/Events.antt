-- ===== src/Events.antt =====
-- internal/events: the delivery of committed events to webhooks.
pub mod Types
pub mod Tables
pub mod World
pub mod Relay
pub mod Dispatcher
pub mod Replay
pub mod Retention
pub mod Runs
