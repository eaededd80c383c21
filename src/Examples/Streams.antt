-- ===== src/Examples/Streams.antt =====
-- The theorems on streams of logs and on pages, tried on a job that has passed.
use paavo.Prelude.{
  ℕ, suc, ◌/◌, ◌≡◌, refl, none, some, List, [], ◌∷◌, ◌++◌, map, length, arith, find_where,
  rows_where,
}
use paavo.Proto.Job.{JobState, JobOutcome, is_terminal}
use paavo.Proto.Log.{LogFrame, info}
use paavo.Db.Store.{Database, JobRow}
use paavo.Db.Job.{from_row}
use paavo.Db.Job.Queries.{find}
use paavo.Db.Log.{row_of}
use paavo.Daemon.Stream.{
  WireMessage, page_size, Readings, streamed, stream_job, event, missed, LiveEvent,
}
use paavo.Daemon.Stream.History.{stream_job-ended}
use paavo.Daemon.Stream.Closed.{IsAnswer, stream_job-IsAnswer}
use paavo.Examples.{queue_db, nightly}

abbrev line : ℕ → LogFrame
line n = record { seq = n; ts_us = n; level = info; target = none; message = "line" }

abbrev log : List LogFrame
log = line 0 ∷ line 1 ∷ []

abbrev passed_row : JobRow
passed_row = record (nightly) {
  state = JobState.passed;
  outcome = some JobOutcome.passed;
  finished_at = some 300;
}

abbrev passed_db : Database
passed_db = record (queue_db) { jobs = passed_row ∷ []; frames = map (row_of 1) log }

abbrev after_pass : Readings
after_pass = record {
  first = passed_db;
  second = passed_db;
  pages = λ k. passed_db;
  received = [];
  last = passed_db;
}

stream_job-ended_example :
    stream_job (suc (length log / page_size)) (some 1) after_pass
    ≡ some (streamed (map WireMessage.frame log ++ WireMessage.terminal JobOutcome.passed ∷ []))
unfolding find from_row is_terminal find_where rows_where
stream_job-ended_example =
    stream_job-ended 1 log after_pass passed_row JobOutcome.passed (λ k. refl) (refl, (refl, tt))
      ((refl, refl), ((refl, refl), tt)) (omega arith) refl refl refl

-- A live stream that falls behind, and whose channel closes without an outcome.
abbrev lagging : Readings
lagging = record {
  first = queue_db;
  second = queue_db;
  pages = λ k. queue_db;
  received = event (LiveEvent.frame (line 0)) ∷ missed 7 ∷ [];
  last = queue_db;
}

stream_job-IsAnswer_example : IsAnswer (stream_job (suc (0 / page_size)) (some 1) lagging)
unfolding rows_where
stream_job-IsAnswer_example =
    stream_job-IsAnswer (some 1) lagging 0 (λ job k. omega arith) (omega arith)
