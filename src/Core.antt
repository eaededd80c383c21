-- ===== src/Core.antt =====
-- crates/paavo-core: scheduling, admission, cancellation and quarantine over the store.
pub mod Scheduler
pub mod Quarantine
pub mod Enqueue
pub mod Cancel
pub mod BuildCache
pub mod Unreadable
