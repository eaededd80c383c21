-- ===== src/Daemon/LogSink/Room.antt =====
-- How many frames wait for the next batch: crates/paavod/src/log_sink.rs.
use paavo.Prelude.{
  ℕ, ◌<◌, ◌≤◌, ◌≡◌, refl, Bool, true, false, ◌||◌, String, Option, length, leb, arith,
  if◌then◌else◌,
}
use paavo.Proto.Log.{LogLevel}
use paavo.Daemon.LogSink.{
  FrameSink, flush, push, tick, buffered, batch_max, Phase, opened, pushed, ticked, elsewhere,
}

flushed_if-room :
    (full over : Bool) (now : ℕ) (s : FrameSink)
    → leb batch_max (length s.batch) ≡ full
    → length (if full || over then flush now s else s).batch < batch_max
unfolding flush
flushed_if-room true over now s e = omega arith
flushed_if-room false true now s e = omega arith
flushed_if-room false false now s e = ground arith

push-room :
    (level : LogLevel) (target : Option String) (message : String) (now : ℕ) (s : FrameSink)
    → length (push level target message now s).batch < batch_max
unfolding push
push-room level target message now s =
    flushed_if-room _ _ now (buffered level target message now s) refl

tick-room : (now : ℕ) (s : FrameSink) → length (tick now s).batch ≤ length s.batch
unfolding tick flush
tick-room now s = ground arith

-- Through a phase that starts so, fewer than 64 frames wait in the batch of a sink.
pub Phase-room :
    {s t : FrameSink} → Phase s t → length s.batch < batch_max → length t.batch < batch_max
Phase-room opened h = h
Phase-room (pushed {t} level target message now before small) h =
    push-room level target message now t
Phase-room (ticked {t} now before) h = omega (arith, tick-room now t, Phase-room before h)
Phase-room (elsewhere db before same known) h = Phase-room before h
