-- ===== src/Runner/Worker.antt =====
-- `run_job`, `drive_session` and `finalise_for_stop` of crates/paavo-runner/src/worker.rs.
use paavo.Prelude.{
  ℕ, ◌-◌, ◌/◌, ◌^◌, min, Bool, false, ◌&&◌, ◌||◌, String, Option, none, some, List, [], ◌∷◌,
  if◌then◌else◌, codes, text_eq, trim,
}
use paavo.Proto.Job.{JobOutcome, test_err, infra_err, TimeoutReason, user, AbortReason}
use paavo.Proto.Log.{LogFrame, is_info}
use paavo.Runner.{
  Event, log_frame, bkpt, panic, disconnect, StopReason, inactivity, hard_max, user_cancel,
  WatchdogState, touch,
}

-- What `next_event` gives back: an event, nothing within its timeout, or a failure.
pub data Answer : Type 0 where
  event : Event → Answer
  quiet : Answer
  failure : String → Answer

-- Where the worker thread is: in `make_session`, at the head of the loop of `drive_session`, in
-- `next_event`, with an outcome that the watchdog has not been told of, or about to return it.
pub data Worker : Type 0 where
  attaching : Worker
  driving : Bool → Worker
  polling : Bool → Worker
  reporting : JobOutcome → Worker
  joined : JobOutcome → Worker

abbrev pub max_u64 : ℕ
max_u64 = 2 ^ 64 - 1

-- `as_millis`, and `u64::MAX` where that does not fit.
unfoldable pub elapsed_ms : ℕ → WatchdogState → ℕ
elapsed_ms now s = min ((now - s.started_at) / 1_000_000) max_u64

unfoldable pub finalise_for_stop : StopReason → ℕ → WatchdogState → JobOutcome
unfolding elapsed_ms
finalise_for_stop inactivity now s =
    JobOutcome.timed_out TimeoutReason.inactivity (elapsed_ms now s)
finalise_for_stop hard_max now s = JobOutcome.timed_out TimeoutReason.hard_max (elapsed_ms now s)
finalise_for_stop user_cancel now s = JobOutcome.aborted user
finalise_for_stop StopReason.daemon_shutdown now s = JobOutcome.aborted AbortReason.daemon_shutdown

-- An info frame whose message is exactly the marker, but for white space round it.
unfoldable pub is_test_ok : LogFrame → Bool
unfolding trim
is_test_ok f = is_info f.level && text_eq (trim (codes f.message)) (codes "Test OK")

-- `make_session` has returned: an error, or a session that is live.
unfoldable pub attach : Option String → ℕ → WatchdogState → WatchdogState × Worker
unfolding touch
attach none now s = (touch now s, driving false)
attach (some message) now s = (s, reporting (JobOutcome.failed (infra_err "probe_attach" message)))

-- The head of the loop.
unfoldable pub check_stop : Bool → ℕ → WatchdogState → Worker
unfolding finalise_for_stop
check_stop seen now s = elim s.stop_reason [
  | none ↦ polling seen
  | some reason ↦ reporting (finalise_for_stop reason now s)
]

-- The rest of a round: the frames sent on, and where the worker is next.
unfoldable pub receive : Bool → Answer → ℕ → WatchdogState → WatchdogState × List LogFrame × Worker
unfolding touch is_test_ok
receive seen (event (log_frame f)) now s = (touch now s, f ∷ [], driving (is_test_ok f || seen))
receive seen (event bkpt) now s = (
  s,
  [],
  reporting (
      if seen
      then JobOutcome.passed
      else JobOutcome.failed (test_err "bkpt without preceding Test OK")),
)
receive seen (event (panic message)) now s =
    (s, [], reporting (JobOutcome.failed (test_err message)))
receive seen (event disconnect) now s = (
  s,
  [],
  reporting (JobOutcome.failed (infra_err "probe_disconnect" "probe disconnected mid-run")),
)
receive seen quiet now s = (s, [], driving seen)
receive seen (failure message) now s =
    (s, [], reporting (JobOutcome.failed (infra_err "probe_io" message)))
