-- ===== src/Daemon/State.antt =====
-- crates/paavod/src/app_state.rs and dispatch.rs: what the daemon keeps between two actions.
use paavo.Prelude.{ℕ, Bool, String, List}
use paavo.Proto.Job.{JobOutcome}
use paavo.Proto.Board.{BoardSpec}
use paavo.Db.Store.{Database, JobRow, DbError}
use paavo.Daemon.Registry.{CancellationRegistry, BuildCancelRegistry}

-- How the build stage of a job ended.
pub data BuildStageOutcome : Type 0 where
  advanced : BuildStageOutcome
  terminal : JobOutcome → BuildStageOutcome

-- Where `run_one_build` stands: before the cache lookup; between a hit and the transition; building;
-- out of `build_inner` with the slot still held; or with slot and kill switch given back and only the
-- outcome left to record.
pub data BuildPhase : Type 0 where
  starting : BuildPhase
  cached : String → BuildPhase
  working : BuildPhase
  ended : BuildStageOutcome → BuildPhase
  released : BuildStageOutcome → BuildPhase

pub record BuildTask : Type 0 where
  pub job : JobRow
  pub slot : ℕ
  pub phase : BuildPhase

pub record RunTask : Type 0 where
  pub job : JobRow
  pub board_id : String

-- The part of `config.toml` that the actions read.
pub record Config : Type 0 where
  pub starvation_threshold_ms : ℕ
  pub consecutive_infra_failures : ℕ
  pub max_concurrent_builds : ℕ
  pub default_inactivity_ms : ℕ
  pub default_hard_max_ms : ℕ
  pub daemon_ceiling_ms : ℕ
  -- `auto_quarantine_reason`, which formats a number
  pub auto_quarantine_reason : ℕ → String
  -- the `Display` text of an error of the store
  pub error_text : DbError → String
  -- `<state_dir>/cache/elf/<tar>.elf`
  pub stable_elf : String → String

pub record Daemon : Type 0 where
  pub db : Database
  pub inventory : List BoardSpec
  pub draining : Bool
  pub free_slots : List ℕ
  pub builds : List BuildTask
  pub runs : List RunTask
  pub cancellation : CancellationRegistry
  pub build_cancel : BuildCancelRegistry
