-- ===== src/Db/Job/Restart.antt =====
-- crates/paavo-db/src/job.rs: `abort_interrupted_jobs`, the sweep at the daemon's start.
use paavo.Prelude.{
  ℕ, ◌-◌, ◌*◌, ◌==◌, ltb, min, Bool, ◌&&◌, ◌||◌, String, Option, none, some, List, [], ◌∷◌, ◌++◌,
  length, if◌then◌else◌, rows_where, count_where, update_where,
}
use paavo.Proto.Job.{JobId, JobState, aborted, building, running, interrupted}
use paavo.Proto.Job
use paavo.Proto.Log.{warn}
use paavo.Db.Store.{
  Database, JobRow, FrameRow, Action, Result, ok, err, panicked, sqlite, primary_key, foreign_key,
}
use paavo.Db.Job.{has_id, in_state}
use paavo.Db.Job.Queries.{read_next_seq}

-- `state IN ('building','running')`
abbrev pub is_in_flight : JobRow → Bool
is_in_flight row = in_state building row || in_state running row

abbrev interrupted_message : String
interrupted_message =
    "job interrupted: paavod restarted while this job was in-flight; any output above is partial"

-- `(now_ms - s).max(0).saturating_mul(1000)`, or 0 without a start.
unfoldable pub interrupted_ts_us : Option ℕ → ℕ → ℕ
interrupted_ts_us none now_ms = 0
interrupted_ts_us (some s) now_ms = min ((now_ms - s) * 1000) 0x7fff_ffff_ffff_ffff

abbrev pub interrupted_frame : JobRow → ℕ → ℕ → FrameRow
interrupted_frame row now_ms next_seq = record {
  job_id = row.id;
  frame = record {
    seq = next_seq;
    ts_us = interrupted_ts_us row.started_at now_ms;
    level = warn;
    target = none;
    message = interrupted_message;
  };
}

-- `PRIMARY KEY (job_id, seq)`
abbrev pub same_key : FrameRow → FrameRow → Bool
same_key f g = g.job_id == f.job_id && g.frame.seq == f.frame.seq

abbrev pub interrupt_row : ℕ → JobRow → JobRow
interrupt_row now_ms row = record row {
  state = JobState.aborted;
  outcome = some (Job.JobOutcome.aborted interrupted);
  finished_at = some now_ms;
}

-- The frame, then the row.
unfoldable pub interrupt_with : JobRow → ℕ → ℕ → Action (Unit {0})
unfolding interrupted_ts_us
interrupt_with row now_ms next_seq db =
    let frame = interrupted_frame row now_ms next_seq in
    if ltb 0 (count_where (same_key frame) db.frames)
    then (db, err (sqlite primary_key))
    else if count_where (has_id row.id) db.jobs == 0
    then (db, err (sqlite foreign_key))
    else (
      record db {
        frames = db.frames ++ frame ∷ [];
        jobs = update_where (has_id row.id) (interrupt_row now_ms) db.jobs;
      },
      ok tt,
    )

abbrev pub after_read :
    Database → Result ℕ → (ℕ → Database × Result (Unit {0})) → Database × Result (Unit {0})
after_read db (ok n) f = f n
after_read db (err e) f = (db, err e)
after_read db (panicked why) f = (db, panicked why)

-- One round of the loop over the orphans.
unfoldable pub interrupt_one : JobRow → ℕ → Action (Unit {0})
unfolding interrupt_with read_next_seq
interrupt_one row now_ms db =
    after_read db (read_next_seq row.id db.frames) (λ n. interrupt_with row now_ms n db)

unfoldable pub interrupt_all : List JobRow → ℕ → Action (Unit {0})
interrupt_all [] now_ms db = (db, ok tt)
interrupt_all (row ∷ rows) now_ms db =
    let (db', r) = interrupt_one row now_ms db in
    elim r [
      | ok _ ↦ interrupt_all rows now_ms db'
      | err e ↦ (db', err e)
      | panicked why ↦ (db', panicked why)
    ]

-- A transaction that fails is rolled back.
abbrev pub commit : Database → ℕ → Database × Result (Unit {0}) → Database × Result ℕ
commit before n (after, ok _) = (after, ok n)
commit before n (after, err e) = (before, err e)
commit before n (after, panicked why) = (before, panicked why)

unfoldable pub abort_interrupted_jobs : ℕ → Action ℕ
unfolding interrupt_all
abort_interrupted_jobs now_ms db =
    let orphans = rows_where is_in_flight db.jobs in
    commit db (length orphans) (interrupt_all orphans now_ms db)
