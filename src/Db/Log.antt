-- ===== src/Db/Log.antt =====
-- crates/paavo-db/src/log.rs: the `log_frame` table, and the sweep that drops old logs of passed jobs.
pub mod Batch
pub mod Pages
pub mod Retention
use paavo.Prelude.{
  ℕ, ◌+◌, ◌-◌, ◌*◌, ◌%◌, ◌^◌, ltb, leb, ◌==◌, str_eq, Bool, true, false, ◌&&◌, ◌||◌, not, String,
  Option, none, some, List, [], ◌∷◌, ◌++◌, map, take, drop, length, if◌then◌else◌, rows_where,
  count_where, delete_where,
}
use paavo.Prelude.Sort.{sort_by}
use paavo.Proto.Job.{JobId}
use paavo.Proto.Job as Job
use paavo.Proto.Log.{LogFrame, LogLevel, trace, debug, info, warn, error}
use paavo.Db.Store.{
  Database, JobRow, FrameRow, Action, Result, ok, err, panicked, sqlite, primary_key, foreign_key,
  unknown_enum, decode_all, fits_i64,
}
use paavo.Db.Job.{has_id, in_state}
use paavo.Db.Job.Restart.{same_key}

abbrev pub row_of : JobId → LogFrame → FrameRow
row_of id f = record { job_id = id; frame = f }

abbrev pub is_frame_of : JobId → FrameRow → Bool
is_frame_of id row = row.job_id == id

-- The frames of a job, in the order in which they were inserted.
abbrev pub frames_of : JobId → List FrameRow → List LogFrame
frames_of id rows = map (λ row. row.frame) (rows_where (is_frame_of id) rows)

abbrev after_insert : Result (List FrameRow) → Database → Database × Result (Unit {0})
after_insert (ok rows) db = (record db { frames = rows }, ok tt)
after_insert (err e) db = (db, err e)
after_insert (panicked why) db = (db, panicked why)

-- The inserts of one batch, one after another.
unfoldable pub insert_all :
    JobId → List JobRow → List LogFrame → List FrameRow → Result (List FrameRow)
insert_all id jobs [] rows = ok rows
insert_all id jobs (f ∷ fs) rows =
    let rest = insert_all id jobs fs (rows ++ row_of id f ∷ []) in
    if ltb 0 (count_where (same_key (row_of id f)) rows)
    then err (sqlite primary_key)
    else if count_where (has_id id) jobs == 0
    then err (sqlite foreign_key)
    else rest

-- A failed insert rolls the transaction back.
unfoldable pub append_batch : JobId → List LogFrame → Action (Unit {0})
unfolding insert_all
append_batch id frames db = after_insert (insert_all id db.jobs frames db.frames) db

-- `as i64` of a `u64`, moved so that its order is that of natural numbers.
abbrev pub as_i64 : ℕ → ℕ
as_i64 n = (n + 2 ^ 63) % 2 ^ 64

abbrev pub seq_leb : LogFrame → LogFrame → Bool
seq_leb f g = leb (as_i64 f.seq) (as_i64 g.seq)

unfoldable pub row_to_frame : LogFrame → Result LogFrame
row_to_frame f =
    if fits_i64 f.seq
    then if fits_i64 f.ts_us then ok f else err (unknown_enum "log_frame.ts_us" "negative")
    else err (unknown_enum "log_frame.seq" "negative")

-- `ORDER BY seq ASC LIMIT … OFFSET …`
unfoldable pub list : JobId → ℕ → ℕ → Database → Result (List LogFrame)
unfolding row_to_frame
list id offset limit db =
    decode_all row_to_frame (take limit (drop offset (sort_by seq_leb (frames_of id db.frames))))

unfoldable pub count_for_job : JobId → Database → ℕ
count_for_job id db = count_where (is_frame_of id) db.frames

-- `level IN ('trace','debug','info')`
abbrev pub is_chatter : LogLevel → Bool
is_chatter trace = true
is_chatter debug = true
is_chatter info = true
is_chatter _ = false

-- A time before the cutoff `now_ms - days * 86_400_000`, of which either may be the larger.
abbrev pub is_older : Option ℕ → ℕ → ℕ → Bool
is_older none days now_ms = false
is_older (some t) days now_ms = ltb (t + days * 86_400_000) now_ms

abbrev pub is_old_pass : ℕ → ℕ → JobRow → Bool
is_old_pass days now_ms row =
    in_state Job.JobState.passed row && is_older row.finished_at days now_ms

abbrev pub is_expired : ℕ → ℕ → List JobRow → FrameRow → Bool
is_expired days now_ms jobs f =
    is_chatter f.frame.level
    && ltb 0 (count_where (λ row. has_id f.job_id row && is_old_pass days now_ms row) jobs)

-- No number of days stands for a negative one, which turns the sweep off.
unfoldable pub truncate_old_passed : Option ℕ → ℕ → Action ℕ
truncate_old_passed none now_ms db = (db, ok 0)
truncate_old_passed (some days) now_ms db = (
  record db { frames = delete_where (is_expired days now_ms db.jobs) db.frames },
  ok (count_where (is_expired days now_ms db.jobs) db.frames),
)
