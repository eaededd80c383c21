-- ===== src/Db.antt =====
-- crates/paavo-db: the tables and the statements on them.
pub mod Store
pub mod Board
pub mod Job
pub mod Decode
pub mod Cache
pub mod Log
pub mod Like
pub mod Codecs
pub mod Schedule
