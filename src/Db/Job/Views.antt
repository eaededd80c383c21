-- ===== src/Db/Job/Views.antt =====
-- What the viewer reads of the `job` table: tallies by state, and pages pinned to a time.
use paavo.Prelude.{
  ℕ, ◌+◌, ◌<◌, ltb, ◌≡◌, refl, Bool, false, some, List, [], ◌∷◌, ◌++◌, length, arith, Bool-cases,
  inl, inr, count_where, count_where-append, rows_where,
}
use paavo.Proto.Job.{JobState, submitted, building, awaiting_board, running}
use paavo.Proto.Stats.{queue, terminal}
use paavo.Db.Store.{Database, JobRow}
use paavo.Db.Job.{has_id, in_state}
use paavo.Db.Job.Queries.{state_counts, list_page, count, count_newer, pinned, newer_than}
use paavo.Db.Job.Moves.{NewJob, insert, new_row}

tallies :
    (jobs : List JobRow)
    → (count_where (in_state submitted) jobs
          + count_where (in_state building) jobs
          + count_where (in_state awaiting_board) jobs)
        + count_where (in_state running) jobs
        + (count_where (in_state JobState.passed) jobs
            + count_where (in_state JobState.failed) jobs
            + count_where (in_state JobState.timed_out) jobs
            + count_where (in_state JobState.aborted) jobs)
      ≡ length jobs
unfolding count_where
tallies [] = refl
tallies (j ∷ js) = ground (arith, tallies js)

-- Queue, running and ended jobs of the tally together are all jobs.
state_counts-total :
    (db : Database)
    → queue (state_counts db) + (state_counts db).running + terminal (state_counts db)
      ≡ length db.jobs
unfolding state_counts queue terminal
state_counts-total db = tallies db.jobs

pinned-newer_than :
    (t : ℕ) (jobs : List JobRow)
    → count_where (pinned (some t)) jobs + count_where (newer_than (some t)) jobs ≡ length jobs
unfolding count_where
pinned-newer_than t [] = refl
pinned-newer_than t (j ∷ js) = ground (arith, pinned-newer_than t js)

-- The jobs up to a time and those newer than it together are all jobs.
count-count_newer :
    (t : ℕ) (db : Database) → count (some t) db + count_newer (some t) db ≡ length db.jobs
unfolding count count_newer
count-count_newer t db = pinned-newer_than t db.jobs

rows_where-append_one :
    (p : JobRow → Bool) (jobs : List JobRow) (row : JobRow)
    → p row ≡ false
    → rows_where p (jobs ++ row ∷ []) ≡ rows_where p jobs
unfolding rows_where
rows_where-append_one p [] row out = rw out
rows_where-append_one p (j ∷ js) row out = elim (Bool-cases (p j)) [
  | inl keep ↦ rw (keep, rows_where-append_one p js row out)
  | inr drop_it ↦ rw (drop_it, rows_where-append_one p js row out)
]

-- Pages pinned to a time, and their count, do not change when a job is submitted after that time.
pub list_page-insert :
    (t offset limit : ℕ) (j : NewJob) (now_ms : ℕ) (db : Database)
    → t < now_ms
    → (list_page (some t) offset limit (insert j now_ms db).0 ≡ list_page (some t) offset limit db)
      × (count (some t) (insert j now_ms db).0 ≡ count (some t) db)
unfolding list_page count insert count_where
list_page-insert t offset limit j now_ms db later =
    elim (Bool-cases (ltb 0 (count_where (has_id j.id) db.jobs))) [
      | inl taken ↦ rw taken (refl, refl)
      | inr free ↦ rw free (
        rw (
            rows_where-append_one (pinned (some t)) db.jobs (new_row j now_ms)
              (ground (arith, later))),
        ground (arith, later, count_where-append (pinned (some t)) db.jobs (new_row j now_ms ∷ [])),
      )
    ]
