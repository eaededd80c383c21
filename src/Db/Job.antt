-- ===== src/Db/Job.antt =====
-- crates/paavo-db/src/job.rs: the statements on the `job` table.
pub mod Queries
pub mod Moves
pub mod Restart
pub mod Sweep
pub mod Spared
pub mod Views
pub mod Search
pub mod Invariant
pub mod Keeps
pub mod Stable
pub mod Ends
pub mod Grows
use paavo.Prelude.{ℕ, ◌==◌, Bool, ◌&&◌, String, Option, none, some, if◌then◌else◌, str_eq}
use paavo.Proto.Job.{building, JobId, JobState, state_eq}
use paavo.Db.Store.{JobRow, Result, ok, err, unknown_enum, fits_i64}

abbrev pub has_id : JobId → JobRow → Bool
has_id id row = row.id == id

abbrev pub in_state : JobState → JobRow → Bool
in_state s row = state_eq row.state s

-- A job whose tar is being built.
abbrev pub builds : String → JobRow → Bool
builds tar row = in_state building row && str_eq row.tar_blake3 tar

-- The enums of the other columns are held decoded; the two durations are checked.
unfoldable pub from_row : JobRow → Result JobRow
from_row row =
    if fits_i64 row.inactivity_timeout_ms
    then if fits_i64 row.hard_max_ms
      then ok row
      else err (unknown_enum "job.hard_max_ms" "negative or > i64::MAX")
    else err (unknown_enum "job.inactivity_timeout_ms" "negative or > i64::MAX")
