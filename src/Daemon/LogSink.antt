-- ===== src/Daemon/LogSink.antt =====
-- crates/paavod/src/log_sink.rs: the sink that numbers the frames of one phase of a job, shows them
-- to live viewers and stores them in batches. Instants are nanoseconds; a call reads the clock once.
pub mod Complete
pub mod Room
use paavo.Prelude.{
  ℕ, suc, ◌+◌, ◌-◌, ◌/◌, ◌%◌, ◌^◌, ◌<◌, min, ltb, leb, ◌≡◌, Bool, true, false, ◌||◌, String, Option,
  List, [], ◌∷◌, ◌++◌, length, if◌then◌else◌, count_where,
}
use paavo.Proto.Job.{JobId}
use paavo.Proto.Log.{LogFrame, LogLevel}
use paavo.Db.Store.{Database, Result, ok, err, panicked}
use paavo.Db.Job.Queries.{next_log_seq}
use paavo.Db.Job.{has_id}
use paavo.Db.Log.{frames_of, append_batch}

-- With the sink, what it shares: the store, and the frames that it has published on the broker.
pub record FrameSink : Type 0 where
  pub job_id : JobId
  pub seq : ℕ
  pub job_start : ℕ
  pub batch : List LogFrame
  pub last_flush : ℕ
  pub db : Database
  pub published : List LogFrame

abbrev pub batch_max : ℕ
batch_max = 64

-- 50 ms
abbrev pub flush_interval : ℕ
flush_interval = 50_000_000

-- An error is logged, and the frames are lost from the store.
unfoldable pub flush : ℕ → FrameSink → FrameSink
unfolding append_batch
flush now s = record s { db = (append_batch s.job_id s.batch s.db).0; batch = []; last_flush = now }

abbrev pub next_frame : LogLevel → Option String → String → ℕ → FrameSink → LogFrame
next_frame level target message now s = record {
  seq = s.seq;
  ts_us = min ((now - s.job_start) / 1000) (2 ^ 64 - 1);
  level = level;
  target = target;
  message = message;
}

abbrev pub is_interval_over : ℕ → FrameSink → Bool
is_interval_over now s = leb flush_interval (now - s.last_flush)

abbrev numbered : LogFrame → FrameSink → FrameSink
numbered f s = record s {
  seq = (s.seq + 1) % 2 ^ 64;
  batch = s.batch ++ f ∷ [];
  published = s.published ++ f ∷ [];
}

abbrev pub buffered : LogLevel → Option String → String → ℕ → FrameSink → FrameSink
buffered level target message now s = numbered (next_frame level target message now s) s

unfoldable pub push : LogLevel → Option String → String → ℕ → FrameSink → FrameSink
unfolding flush
push level target message now s =
    let t = buffered level target message now s in
    if leb batch_max (length t.batch) || is_interval_over now t then flush now t else t

abbrev pub is_empty : List LogFrame → Bool
is_empty [] = true
is_empty (f ∷ fs) = false

unfoldable pub tick : ℕ → FrameSink → FrameSink
unfolding flush
tick now s = if is_empty s.batch then s else if is_interval_over now s then flush now s else s

unfoldable pub finish : ℕ → FrameSink → FrameSink
unfolding flush
finish now s = if is_empty s.batch then s else flush now s

-- `FrameSink::new`; `shown` is what earlier phases of the job have published.
unfoldable pub new : JobId → ℕ → ℕ → List LogFrame → Database → FrameSink
new id seq now shown db = record {
  job_id = id;
  seq = seq;
  job_start = now;
  batch = [];
  last_flush = now;
  db = db;
  published = shown;
}

-- A phase of a job: frames come, time passes, and other parts of the daemon use the store, where
-- they leave the job's row and its frames.
pub data Phase : FrameSink → FrameSink → Type 0 where
  opened : {s : FrameSink} → Phase s s
  pushed :
      {s t : FrameSink} (level : LogLevel) (target : Option String) (message : String) (now : ℕ)
      → Phase s t
      → t.seq < 2 ^ 63
      → Phase s (push level target message now t)
  ticked : {s t : FrameSink} (now : ℕ) → Phase s t → Phase s (tick now t)
  elsewhere :
      {s t : FrameSink} (db : Database)
      → Phase s t
      → frames_of t.job_id db.frames ≡ frames_of t.job_id t.db.frames
      → 0 < count_where (has_id t.job_id) db.jobs
      → Phase s (record t { db = db })

abbrev pub seq_or_zero : Result ℕ → ℕ
seq_or_zero (ok n) = n
seq_or_zero (err e) = 0
seq_or_zero (panicked why) = 0

-- Where the numbers of the run's sink begin: `next_log_seq(..).unwrap_or(0)` of `run_one_run`.
unfoldable pub start_seq : JobId → Database → ℕ
unfolding next_log_seq
start_seq id db = seq_or_zero (next_log_seq id db)
