-- ===== src/Proto.antt =====
-- crates/paavo-proto: the types that the other crates share.
pub mod Job
pub mod Board
pub mod Selector
pub mod Log
pub mod Stats
