-- ===== src/Proto/Stats.antt =====
-- crates/paavo-proto/src/stats.rs: the tallies of the dashboard. Sums of `u64` counts of rows do not
-- overflow for any table that fits in memory and are left unbounded.
use paavo.Prelude.{ℕ, ◌+◌, ◌-◌}

pub record JobStateCounts : Type 0 where
  pub submitted : ℕ
  pub building : ℕ
  pub awaiting_board : ℕ
  pub running : ℕ
  pub passed : ℕ
  pub failed : ℕ
  pub timed_out : ℕ
  pub aborted : ℕ

unfoldable pub queue : JobStateCounts → ℕ
queue c = c.submitted + c.building + c.awaiting_board

unfoldable pub terminal : JobStateCounts → ℕ
terminal c = c.passed + c.failed + c.timed_out + c.aborted

pub record BoardHealthCounts : Type 0 where
  pub total : ℕ
  pub quarantined : ℕ

-- `saturating_sub`
unfoldable pub healthy : BoardHealthCounts → ℕ
healthy c = c.total - c.quarantined
