-- ===== src/Runner.antt =====
-- crates/paavo-runner/src (job.rs, watchdog.rs) and crates/paavo-probe/src/event.rs: what a board
-- worker and its watchdog share. Instants are nanoseconds on one monotonic clock.
pub mod Watchdog
pub mod Worker
pub mod Steps
pub mod Verdict
pub mod Stop
use paavo.Prelude.{ℕ, ◌*◌, String, Option, none}
use paavo.Proto.Job.{JobId}
use paavo.Proto.Log.{LogFrame}
use paavo.Daemon.Registry.{RunCommand, cancel}

pub data Event : Type 0 where
  log_frame : LogFrame → Event
  bkpt : Event
  panic : String → Event
  disconnect : Event

-- `cancel_rx` is the list of commands of a run. The source reserves `probe_release_grace_ms`.
pub record JobInputs : Type 0 where
  pub job_id : JobId
  pub inactivity_timeout_ms : ℕ
  pub hard_max_ms : ℕ
  pub probe_release_grace_ms : ℕ

pub data StopReason : Type 0 where
  inactivity hard_max user_cancel daemon_shutdown : StopReason

pub record WatchdogState : Type 0 where
  pub last_activity : ℕ
  pub started_at : ℕ
  pub stop_reason : Option StopReason

unfoldable pub new : ℕ → WatchdogState
new now = record { last_activity = now; started_at = now; stop_reason = none }

unfoldable pub touch : ℕ → WatchdogState → WatchdogState
touch now s = record s { last_activity = now }

-- `Duration::from_millis`, in nanoseconds
abbrev pub from_millis : ℕ → ℕ
from_millis ms = ms * 1_000_000

abbrev pub stop_of : RunCommand → StopReason
stop_of cancel = user_cancel
stop_of RunCommand.daemon_shutdown = daemon_shutdown
