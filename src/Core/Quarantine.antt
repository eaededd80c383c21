-- ===== src/Core/Quarantine.antt =====
-- crates/paavo-core/src/quarantine.rs: what an outcome does to the board it ran on.
pub mod Streak
use paavo.Prelude.{ℕ, leb, Bool, true, false, ◌&&◌, ◌||◌, not, String, if◌then◌else◌}
use paavo.Proto.Job.{JobOutcome, inactivity, hard_max, counts_toward_infra_failure}
use paavo.Db.Store.{Action, BoardRow, ◌>>=◌, ◌>>◌, done, query}
use paavo.Db.Board.{get, bump_infra_failure, reset_infra_failures, quarantine}

abbrev pub is_inactivity : JobOutcome → Bool
is_inactivity (JobOutcome.timed_out inactivity elapsed_ms) = true
is_inactivity _ = false

unfoldable pub counts_toward_infra : JobOutcome → Bool → Bool
unfolding counts_toward_infra_failure
counts_toward_infra outcome probe_released_cleanly =
    counts_toward_infra_failure outcome || (is_inactivity outcome && not probe_released_cleanly)

-- The text of `auto_quarantine_reason` is a parameter: it formats a number.
unfoldable pub bump_and_check : (ℕ → String) → String → ℕ → Action Bool
bump_and_check auto_quarantine_reason board_id threshold = do
  bump_infra_failure board_id
  row ← query (get board_id)
  if leb threshold row.consecutive_infra_failures
      then quarantine board_id (auto_quarantine_reason row.consecutive_infra_failures) >> done true
      else done false

unfoldable pub apply_outcome_to_board : (ℕ → String) → String → JobOutcome → Bool → ℕ → Action Bool
unfolding counts_toward_infra bump_and_check
apply_outcome_to_board auto_quarantine_reason board_id outcome probe_released_cleanly threshold =
    if counts_toward_infra outcome probe_released_cleanly
    then bump_and_check auto_quarantine_reason board_id threshold
    else reset_infra_failures board_id >> done false
