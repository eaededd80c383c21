-- ===== src/Daemon/Nightly.antt =====
-- crates/paavod/src/cron.rs: the nightly run over the corpus. When it fires is the scheduler library's.
pub mod Fires
use Prim.Native.String as NativeString
use paavo.Prelude.{
  ℕ, suc, ◌+◌, ◌*◌, ◌%◌, ◌^◌, ltb, Bool, true, false, String, Option, none, some, List, [], ◌∷◌,
  if◌then◌else◌,
}
use paavo.Proto.Job.{JobId, scheduled, scheduler}
use paavo.Proto.Board.{BoardSpec}
use paavo.Db.Store.{Database, ScheduleRow}
use paavo.Db.Schedule
use paavo.Core.Enqueue.{EnqueueRequest, Outcome, enqueue_job}
use paavo.Daemon.State.{Daemon}

-- A directory below an entry that `read_dir`, `file_type` and the look for `Cargo.toml` let through,
-- with the id that it is given, the time of its enqueue, and the blake3 of its tar, if that could be
-- written and renamed.
pub record Crate : Type 0 where
  pub name : String
  pub job_id : JobId
  pub now_ms : ℕ
  pub tar : Option String

-- What `read_dir` yields: an entry that fails, is no directory or has no `Cargo.toml`, or a crate.
pub data SubDir : Type 0 where
  skipped : SubDir
  crate_dir : Crate → SubDir

-- No listing stands for a `read_dir` that fails.
pub record CorpusEntry : Type 0 where
  pub name : String
  pub kind : String
  pub cargo_update : List String
  pub listing : Option (List SubDir)

-- The part of `config.toml` that the run reads, and the path of an upload.
pub record NightlyConfig : Type 0 where
  pub nightly_cron : String
  pub default_inactivity_s : ℕ
  pub default_scheduled_hard_max_s : ℕ
  pub daemon_ceiling_s : ℕ
  pub corpus : List CorpusEntry
  pub upload_path : String → String

-- `s * 1_000` on `u64`
abbrev pub to_ms : ℕ → ℕ
to_ms s = (s * 1_000) % 2 ^ 64

abbrev pub nightly_submitter : String → String → String
nightly_submitter entry crate_name =
    NativeString.◌++◌ "nightly:" (NativeString.◌++◌ entry (NativeString.◌++◌ ":" crate_name))

unfoldable pub request_of : NightlyConfig → CorpusEntry → Crate → String → EnqueueRequest
request_of cfg entry c blake = record {
  new = record {
    id = c.job_id;
    priority = scheduled;
    submitter = nightly_submitter entry.name c.name;
    source = scheduler;
    board_selector = record { kind = entry.kind; instance_id = none; wiring_profile = none };
    inactivity_timeout_ms = to_ms cfg.default_inactivity_s;
    hard_max_ms = to_ms cfg.default_scheduled_hard_max_s;
    tar_blake3 = blake;
    tar_path = cfg.upload_path blake;
    cargo_update_packages = entry.cargo_update;
    skip_cache = false;
  };
  daemon_ceiling_ms = to_ms cfg.daemon_ceiling_s;
}

-- Whether a call went in, and the store after it.
abbrev pub went_in : Database × Outcome JobId → Database × Bool
went_in (db, Outcome.ok id) = (db, true)
went_in (db, Outcome.err e) = (db, false)
went_in (db, Outcome.panicked why) = (db, false)

abbrev pub enqueue_tar :
    NightlyConfig
    → List BoardSpec
    → CorpusEntry
    → Crate
    → Option String
    → Database
    → Database × Bool
enqueue_tar cfg inventory entry c none db = (db, false)
enqueue_tar cfg inventory entry c (some blake) db =
    went_in (enqueue_job inventory (request_of cfg entry c blake) c.now_ms db)

unfoldable pub enqueue_one_crate :
    NightlyConfig → List BoardSpec → CorpusEntry → Crate → Database → Database × Bool
unfolding enqueue_job request_of
enqueue_one_crate cfg inventory entry c db = enqueue_tar cfg inventory entry c c.tar db

abbrev pub counted : Database × Bool → (Database → Database × ℕ) → Database × ℕ
counted (db, true) rest = let (after, n) = rest db in (after, suc n)
counted (db, false) rest = rest db

unfoldable pub enqueue_subdirs :
    NightlyConfig → List BoardSpec → CorpusEntry → List SubDir → Database → Database × ℕ
unfolding enqueue_one_crate
enqueue_subdirs cfg inventory entry [] db = (db, 0)
enqueue_subdirs cfg inventory entry (skipped ∷ subs) db =
    enqueue_subdirs cfg inventory entry subs db
enqueue_subdirs cfg inventory entry (crate_dir c ∷ subs) db =
    counted (enqueue_one_crate cfg inventory entry c db) (enqueue_subdirs cfg inventory entry subs)

abbrev pub enqueue_corpus_entry :
    NightlyConfig → List BoardSpec → CorpusEntry → Option (List SubDir) → Database → Database × ℕ
enqueue_corpus_entry cfg inventory entry none db = (db, 0)
enqueue_corpus_entry cfg inventory entry (some subs) db =
    enqueue_subdirs cfg inventory entry subs db

unfoldable pub enqueue_corpus :
    NightlyConfig → List BoardSpec → List CorpusEntry → Database → Database × ℕ
unfolding enqueue_subdirs
enqueue_corpus cfg inventory [] db = (db, 0)
enqueue_corpus cfg inventory (entry ∷ entries) db =
    let (first, m) = enqueue_corpus_entry cfg inventory entry entry.listing db in
    let (after, n) = enqueue_corpus cfg inventory entries first in (after, m + n)

abbrev pub nightly_row : NightlyConfig → Option ℕ → ScheduleRow
nightly_row cfg triggered = record {
  id = "nightly";
  cron = cfg.nightly_cron;
  enabled = true;
  last_triggered_at = triggered;
  last_completed_at = none;
}

-- At the daemon's start.
unfoldable pub seed_schedule : NightlyConfig → Database → Database
unfolding Schedule.upsert
seed_schedule cfg db = (Schedule.upsert (nightly_row cfg none) db).0

abbrev pub stamp_if : ℕ → ℕ → Database → Database
stamp_if enqueued now_ms db =
    if ltb 0 enqueued
    then (Schedule.apply_update "nightly"
        (record { last_triggered_at = none; last_completed_at = some now_ms }) db).0
    else db

-- The store can fail in no other way here than by its constraints, which the enqueues answer for.
unfoldable pub run_nightly_corpus : NightlyConfig → ℕ → ℕ → Daemon → Daemon
unfolding Schedule.upsert Schedule.apply_update enqueue_corpus
run_nightly_corpus cfg now_ms completed_ms d =
    if d.draining
    then d
    else let triggered = (Schedule.upsert (nightly_row cfg (some now_ms)) d.db).0 in
      let (after, n) = enqueue_corpus cfg d.inventory cfg.corpus triggered in
      record d { db = stamp_if n completed_ms after }
