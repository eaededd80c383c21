-- ===== src/Proto/Log.antt =====
-- crates/paavo-proto/src/log.rs: the frames of a job's log.
use paavo.Prelude.{ℕ, Bool, true, false, String, Option}

pub data LogLevel : Type 0 where
  trace debug info warn error : LogLevel

pub record LogFrame : Type 0 where
  pub seq : ℕ
  pub ts_us : ℕ
  pub level : LogLevel
  pub target : Option String
  pub message : String

abbrev pub is_info : LogLevel → Bool
is_info info = true
is_info _ = false
