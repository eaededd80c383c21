-- ===== src/Examples.antt =====
-- A small laboratory that the theorems are tried on: two boards of one kind, and jobs for them.
pub mod Scheduling
pub mod Stores
pub mod Histories
pub mod Runs
pub mod Logs
pub mod Nights
pub mod Streams
pub mod Selectors
use paavo.Prelude.{ℕ, codes, Bool, true, false, String, Option, none, some, List, [], ◌∷◌}
use paavo.Proto.Job.{
  JobId, Priority, interactive, scheduled, cli, scheduler, JobState, submitted, building,
  awaiting_board, running, JobOutcome,
}
use paavo.Proto.Board.{BoardSpec, BoardSelector, healthy}
use paavo.Db.Store.{Database, empty, BoardRow, JobRow, BuildCacheEntry}
use paavo.Db.Job.Moves.{NewJob, new_row}
use paavo.Core.Enqueue.{EnqueueRequest}
use paavo.Core.BuildCache.{Disk, regular}
use paavo.Daemon.State.{Config}

abbrev pub spec_of : String → BoardSpec
spec_of id = record {
  id = id;
  kind = "nrf52";
  probe_selector = record {
    vid = codes "1366";
    pid = codes "1015";
    serial = codes id;
    interface = none;
  };
  chip_name = "nRF52840_xxAA";
  target_name = "thumbv7em-none-eabihf";
  wiring_profile = none;
  health = healthy;
}

abbrev pub board_of : String → Option ℕ → BoardRow
board_of id used = record {
  spec = spec_of id;
  quarantine_reason = none;
  consecutive_infra_failures = 0;
  last_used_at = used;
  created_at = 0;
}

abbrev pub desk : BoardRow
desk = board_of "desk" (some 50)

abbrev pub rack : BoardRow
rack = board_of "rack" (some 20)

abbrev pub any_nrf : BoardSelector
any_nrf = record { kind = "nrf52"; instance_id = none; wiring_profile = none }

abbrev pub request : JobId → Priority → String → NewJob
request id priority tar = record {
  id = id;
  priority = priority;
  submitter = "alice";
  source = cli;
  board_selector = any_nrf;
  inactivity_timeout_ms = 30_000;
  hard_max_ms = 600_000;
  tar_blake3 = tar;
  tar_path = "/var/lib/paavo/tars/a.tar";
  cargo_update_packages = [];
  skip_cache = false;
}

-- Submitted at 100, scheduled; at 40, interactive; at 10, scheduled.
abbrev pub nightly : JobRow
nightly = new_row (request 1 scheduled "aa") 100

abbrev pub urgent : JobRow
urgent = new_row (request 2 interactive "bb") 40

abbrev pub starved : JobRow
starved = new_row (request 3 scheduled "cc") 10

abbrev pub built : JobRow → JobRow
built row = record row {
  state = awaiting_board;
  started_at = some 200;
  elf_path = some "/var/lib/paavo/a.elf";
}

abbrev pub on_rack : JobRow → JobRow
on_rack row = record (built row) { state = running; board_id = some "rack" }

abbrev pub queue_db : Database
queue_db = record (empty) { boards = desk ∷ rack ∷ []; jobs = nightly ∷ urgent ∷ starved ∷ [] }

abbrev pub ready_db : Database
ready_db = record (empty) { boards = desk ∷ rack ∷ []; jobs = built nightly ∷ built starved ∷ [] }

-- Both boards taken.
abbrev pub busy_db : Database
busy_db = record (empty) { boards = rack ∷ []; jobs = on_rack urgent ∷ built nightly ∷ [] }

abbrev pub entry_of : String → ℕ → ℕ → BuildCacheEntry
entry_of tar used size = record {
  tar_blake3 = tar;
  elf_path = "/var/lib/paavo/a.elf";
  built_at = 0;
  last_used_at = used;
  size_bytes = size;
}

abbrev pub disk : Disk
disk path = regular 10

abbrev pub enqueue_of : NewJob → EnqueueRequest
enqueue_of j = record { new = j; daemon_ceiling_ms = 3_600_000 }

abbrev pub config : Config
config = record {
  starvation_threshold_ms = 60;
  consecutive_infra_failures = 3;
  max_concurrent_builds = 2;
  default_inactivity_ms = 30_000;
  default_hard_max_ms = 600_000;
  daemon_ceiling_ms = 3_600_000;
  auto_quarantine_reason = λ n. "auto: infra failures";
  error_text = λ e. "store error";
  stable_elf = λ tar. tar;
}
