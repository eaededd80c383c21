-- ===== src/Daemon.antt =====
-- crates/paavod: the daemon's dispatch loop, its registries and its handlers over one store.
pub mod Registry
pub mod State
pub mod Dispatch
pub mod Handlers
pub mod Steps
pub mod Keeps
pub mod Requests
pub mod Claims
pub mod History
pub mod Outcomes
pub mod Loops
pub mod LogSink
pub mod Nightly
pub mod Drain
pub mod Stream
