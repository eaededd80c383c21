-- ===== src/Examples/Logs.antt =====
-- The theorems on logs and searches, tried on the jobs of the laboratory.
use paavo.Prelude.{
  ◌+◌, ◌<◌, ◌≡◌, ◌↔◌, refl, false, none, some, List, [], ◌∷◌, take, drop, length, arith, codes, ℕ,
  count_where, rows_where, delete_where, Memᴰ,
}
use paavo.Proto.Job.{JobState}
use paavo.Proto.Log.{LogFrame, info, warn}
use paavo.Prelude.Sort.{sort_by}
use paavo.Db.Store.{decode_all, Database, BoardRow, JobRow, ok}
use paavo.Db.Log.{row_of, frames_of, list, truncate_old_passed}
use paavo.Db.Log.Retention.{kept, is_old_job, truncate_old_passed_lem}
use paavo.Db.Like.{escape_like, like}
use paavo.Db.Like.Literal.{substring_pattern}
use paavo.Db.Board.Pages.{needle, IsListed, list_page, count, list_page-mem}
use paavo.Db.Codecs.{
  state_to_str, state_from_str, source_to_str, source_from_str, health_to_str, health_from_str,
  level_to_str, level_from_str, priority_from_i64, IsCodec, columns-IsCodec,
}
use paavo.Proto.Job.{weight}
use paavo.Db.Job.Search.Hits.{IsResult, search_lem}
use paavo.Daemon.LogSink.{start_seq}
use paavo.Daemon.LogSink.{FrameSink, new, push, finish, flush, batch_max, Phase, opened, pushed}
use paavo.Daemon.LogSink.Complete.{IsComplete, finish-lists, new-IsComplete}
use paavo.Daemon.LogSink.Room.{Phase-room}
use paavo.Examples.{queue_db, nightly, desk}

-- The build of job 1 prints two lines.
abbrev fresh : FrameSink
fresh = new 1 0 0 [] queue_db

fresh-IsComplete : IsComplete fresh
unfolding new rows_where count_where
fresh-IsComplete = record { known = omega arith; whole = refl; contiguous = tt; next = refl }

abbrev printed : FrameSink
printed =
    push info (some "cargo:stdout") "two" 20_000_000
      (push info (some "cargo:stdout") "one" 10_000_000 fresh)

abbrev printing : Phase fresh printed
unfolding new push
printing =
    pushed info (some "cargo:stdout") "two" 20_000_000
      (pushed info (some "cargo:stdout") "one" 10_000_000 opened (omega arith)) (omega arith)

Phase-room_example : length printed.batch < batch_max
unfolding new
Phase-room_example = Phase-room printing (omega arith)

finish-lists_example :
    list 1 0 10 (finish 30_000_000 printed).db ≡ ok (take 10 (drop 0 printed.published))
unfolding new push flush
finish-lists_example =
    finish-lists 30_000_000 0 10 fresh-IsComplete printing (omega arith)
      ((refl, refl), ((refl, refl), tt))

new-IsComplete_example : IsComplete (
    new 1
      (start_seq 1 (finish 30_000_000 printed).db)
      90
      printed.published
      (finish 30_000_000 printed).db)
unfolding new push
new-IsComplete_example = new-IsComplete 30_000_000 90 fresh-IsComplete printing (omega arith)

-- Job 1 passed long ago, with one line of chatter and one warning.
abbrev frame : ℕ → LogFrame
frame n = record { seq = n; ts_us = 0; level = info; target = none; message = "line" }

abbrev old_pass : JobRow
old_pass = record (nightly) { state = JobState.passed; finished_at = some 5 }

abbrev logged : Database
logged = record (queue_db) {
  jobs = old_pass ∷ [];
  frames = row_of 1 (frame 0) ∷ row_of 1 (record (frame 1) { level = warn }) ∷ [];
}

truncate_old_passed_lem_example :
    (frames_of 1 (truncate_old_passed (some 1) 90_000_000 logged).0.frames
      ≡ kept (is_old_job 1 90_000_000 1 logged.jobs) (frames_of 1 logged.frames))
    × ((n : ℕ) × ((truncate_old_passed (some 1) 90_000_000 logged).1 ≡ ok n)
        × (length (truncate_old_passed (some 1) 90_000_000 logged).0.frames + n
            ≡ length logged.frames))
truncate_old_passed_lem_example = truncate_old_passed_lem 1 90_000_000 logged 1

chatter_goes : length (frames_of 1 (truncate_old_passed (some 1) 90_000_000 logged).0.frames) ≡ 1
unfolding truncate_old_passed delete_where count_where rows_where
chatter_goes = refl

-- One of two boards has the filter in its id.
all_listed :
    list_page (some (codes " DES ")) 0 (count (some (codes " DES ")) queue_db) queue_db
    ≡ ok (desk ∷ [])
unfolding list_page count escape_like decode_all count_where sort_by rows_where
all_listed = refl

list_page-mem_example :
    (length (desk ∷ []) ≡ count (some (codes " DES ")) queue_db)
    × ((row : BoardRow)
        → Memᴰ row (desk ∷ [])
          ↔ (Memᴰ row queue_db.boards × IsListed (needle (some (codes " DES "))) row))
list_page-mem_example = list_page-mem (some (codes " DES ")) queue_db all_listed

-- The wildcard of SQL is a letter like any other.
no_wildcard : like (substring_pattern (codes "f_2")) (codes "nrf52") ≡ false
unfolding like escape_like
no_wildcard = refl

columns-IsCodec_example :
    IsCodec state_to_str state_from_str
    × IsCodec source_to_str source_from_str
    × IsCodec health_to_str health_from_str
    × IsCodec level_to_str level_from_str
    × IsCodec weight (priority_from_i64 "7")
columns-IsCodec_example = columns-IsCodec "7"

search_lem_example :
    (hits : List JobRow) × IsResult
      (λ id. codes "01J")
      (λ s. s)
      (λ hay query. some (length query))
      (codes " ALI ")
      queue_db
      hits
search_lem_example =
    search_lem (λ id. codes "01J") (λ s. s) (λ hay query. some (length query)) (codes " ALI ")
      queue_db
