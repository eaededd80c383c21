-- ===== src/Db/Job/Queries.antt =====
-- crates/paavo-db/src/job.rs: the queries, and the lists that the scheduler and the viewer read.
use paavo.Prelude.{
  ℕ, suc, ◌==◌, ltb, leb, max, Bool, true, false, ◌&&◌, ◌||◌, String, Option, none, some, List, [],
  ◌∷◌, map, take, drop, if◌then◌else◌, rows_where, count_where, find_where,
}
use paavo.Prelude.Sort.{sort_by}
use paavo.Proto.Job.{JobId, JobState, submitted, building, running, awaiting_board, weight}
use paavo.Proto.Stats.{JobStateCounts}
use paavo.Db.Store.{
  Database, JobRow, FrameRow, Result, ok, err, not_found, job, decode_all, sqlite, column_type,
  fits_i64,
}
use paavo.Db.Job.{has_id, in_state, from_row}

unfoldable pub get : JobId → Database → Result JobRow
unfolding from_row
get id db = elim (find_where (has_id id) db.jobs) [
  | none ↦ err (not_found (job id))
  | some row ↦ from_row row
]

unfoldable pub find : JobId → Database → Result (Option JobRow)
unfolding from_row
find id db = elim (find_where (has_id id) db.jobs) [
  | none ↦ ok none
  | some row ↦ elim (from_row row) [
    | ok r ↦ ok (some r)
    | err e ↦ err e
    | Result.panicked why ↦ Result.panicked why
  ]
]

-- `ORDER BY priority ASC, submitted_at ASC`, and the key of `sort_by_key`.
abbrev pub dispatch_leb : JobRow → JobRow → Bool
dispatch_leb a b =
    ltb (weight a.priority) (weight b.priority)
    || (weight a.priority == weight b.priority && leb a.submitted_at b.submitted_at)

unfoldable pub list_in_dispatch_order : JobState → ℕ → Database → Result (List JobRow)
unfolding from_row
list_in_dispatch_order s limit db =
    decode_all from_row (take limit (sort_by dispatch_leb (rows_where (in_state s) db.jobs)))

unfoldable pub list_submitted : ℕ → Database → Result (List JobRow)
unfolding list_in_dispatch_order
list_submitted = list_in_dispatch_order submitted

unfoldable pub list_awaiting_board : ℕ → Database → Result (List JobRow)
unfolding list_in_dispatch_order
list_awaiting_board = list_in_dispatch_order awaiting_board

-- The set that `SELECT DISTINCT tar_blake3` feeds, with repetitions.
unfoldable pub building_tar_blake3s : Database → List String
building_tar_blake3s db =
    map (λ (row : JobRow). row.tar_blake3) (rows_where (in_state building) db.jobs)

-- `COALESCE(MAX(seq), -1) + 1` over the frames of the job.
unfoldable pub next_seq : JobId → List FrameRow → ℕ
next_seq id [] = 0
next_seq id (f ∷ fs) =
    let rest = next_seq id fs in if f.job_id == id then max (suc f.frame.seq) rest else rest

-- SQLite adds beyond 2^63 - 1 in floating point, which `r.get` does not read as an `i64`.
unfoldable pub read_next_seq : JobId → List FrameRow → Result ℕ
unfolding next_seq
read_next_seq id frames =
    if fits_i64 (next_seq id frames) then ok (next_seq id frames) else err (sqlite column_type)

unfoldable pub next_log_seq : JobId → Database → Result ℕ
unfolding read_next_seq
next_log_seq id db = read_next_seq id db.frames

-- `ORDER BY submitted_at DESC, id DESC`
abbrev pub newest_leb : JobRow → JobRow → Bool
newest_leb a b =
    ltb b.submitted_at a.submitted_at || (b.submitted_at == a.submitted_at && leb b.id a.id)

abbrev submitted_leb : JobRow → JobRow → Bool
submitted_leb a b = leb b.submitted_at a.submitted_at

unfoldable pub list_by_state : JobState → ℕ → Database → Result (List JobRow)
unfolding from_row
list_by_state s limit db =
    decode_all from_row (take limit (sort_by submitted_leb (rows_where (in_state s) db.jobs)))

unfoldable pub list_recent : ℕ → Database → Result (List JobRow)
unfolding from_row
list_recent limit db = decode_all from_row (take limit (sort_by newest_leb db.jobs))

-- The `as_of` pin, absent on the first page.
abbrev pub pinned : Option ℕ → JobRow → Bool
pinned none row = true
pinned (some t) row = leb row.submitted_at t

abbrev pub newer_than : Option ℕ → JobRow → Bool
newer_than none row = false
newer_than (some t) row = ltb t row.submitted_at

unfoldable pub list_page : Option ℕ → ℕ → ℕ → Database → Result (List JobRow)
unfolding from_row
list_page as_of offset limit db =
    decode_all from_row
      (take limit (drop offset (sort_by newest_leb (rows_where (pinned as_of) db.jobs))))

unfoldable pub count : Option ℕ → Database → ℕ
count as_of db = count_where (pinned as_of) db.jobs

unfoldable pub count_newer : Option ℕ → Database → ℕ
count_newer as_of db = count_where (newer_than as_of) db.jobs

unfoldable pub state_counts : Database → JobStateCounts
state_counts db = record {
  submitted = count_where (in_state submitted) db.jobs;
  building = count_where (in_state building) db.jobs;
  awaiting_board = count_where (in_state awaiting_board) db.jobs;
  running = count_where (in_state running) db.jobs;
  passed = count_where (in_state JobState.passed) db.jobs;
  failed = count_where (in_state JobState.failed) db.jobs;
  timed_out = count_where (in_state JobState.timed_out) db.jobs;
  aborted = count_where (in_state JobState.aborted) db.jobs;
}
