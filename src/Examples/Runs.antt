-- ===== src/Examples/Runs.antt =====
-- The theorems on a board worker and its watchdog, tried on short runs.
use paavo.Prelude.{◌≡◌, refl, inl, true, false, none, [], arith, if◌then◌else◌}
use paavo.Proto.Job.{JobOutcome, test_err, TimeoutReason}
use paavo.Proto.Log.{LogFrame, info}
use paavo.Runner.{JobInputs, log_frame, bkpt, new, touch}
use paavo.Runner.Watchdog.{run_watchdog, look_at_clocks}
use paavo.Runner.Worker.{
  event, quiet, reporting, joined, attach, check_stop, receive, finalise_for_stop, elapsed_ms,
  is_test_ok,
}
use paavo.Runner.Steps.{
  Run, spawn, pass, attaches, checks, receives, waits, passes, attached, checked, received,
  reported, Reaches, start, next,
}
use paavo.Runner.Verdict.{has_test_ok, Justifies}
use paavo.Runner.Verdict.Kept.{outcome-Justifies, receives-bkpt}
use paavo.Runner.Stop.{has_outcome, due-ends}
use paavo.Prelude.{trim}

-- Ten milliseconds of silence, three in all.
abbrev limits : JobInputs
limits = record {
  job_id = 1;
  inactivity_timeout_ms = 10;
  hard_max_ms = 3;
  probe_release_grace_ms = 5_000;
}

abbrev marker : LogFrame
marker = record { seq = 0; ts_us = 0; level = info; target = none; message = " Test OK\n" }

-- A session that is live, with the worker in `next_event`, after four milliseconds.
abbrev late : Run
late = record (checks false (attaches none (spawn 0))) { clock = 4_000_000 }

abbrev to_late : Reaches limits (spawn 0) late
unfolding spawn attaches checks attach check_stop new touch
to_late =
    next (next (next start (attached none refl)) (checked false refl))
      (waits 4_000_000 (omega arith))

-- The watchdog stops it, and the worker sees it at the head of its loop.
abbrev stopped : Run
stopped = pass limits late

abbrev to_stopped : Reaches limits (spawn 0) stopped
unfolding spawn attaches checks attach check_stop new touch
to_stopped = next to_late (passes 0 refl (omega arith))

abbrev past_stop : Reaches limits stopped (checks false (receives false quiet stopped))
unfolding spawn attaches checks attach check_stop new touch pass receives receive
past_stop = next (next start (received false quiet refl)) (checked false refl)

due-ends_example : has_outcome (checks false (receives false quiet stopped)).worker ≡ true
unfolding spawn attaches checks attach check_stop new touch pass receives receive
due-ends_example =
    due-ends limits (omega arith) (omega arith) 0 0 to_late refl refl (inl (omega arith)) past_stop
      (omega arith)

-- It has timed out after four milliseconds.
abbrev timed_out : JobOutcome
timed_out = JobOutcome.timed_out TimeoutReason.hard_max 4

abbrev to_end :
    Reaches limits
      (spawn 0)
      (record (checks false (receives false quiet stopped)) { worker = joined timed_out })
unfolding spawn attaches checks attach check_stop new touch pass receives receive run_watchdog
    look_at_clocks finalise_for_stop elapsed_ms
to_end =
    next (next (next to_stopped (received false quiet refl)) (checked false refl))
      (reported timed_out refl)

outcome-Justifies_example : Justifies limits [] stopped.watch.stop_reason timed_out
unfolding spawn attaches checks attach check_stop new touch pass receives receive run_watchdog
    look_at_clocks
outcome-Justifies_example =
    outcome-Justifies limits (omega arith) (omega arith) 0 timed_out to_end refl

-- The marker comes, with white space round it, and then the breakpoint.
abbrev marked : Run
marked =
    checks true (receives false (event (log_frame marker)) (checks false (attaches none (spawn 0))))

abbrev to_marked : Reaches limits (spawn 0) marked
unfolding spawn attaches checks attach check_stop new touch receives receive is_test_ok trim
to_marked =
    next
      (next (next (next start (attached none refl)) (checked false refl))
        (received false (event (log_frame marker)) refl))
      (checked true refl)

receives-bkpt_example :
    (receives true (event bkpt) marked).worker
    ≡ reporting (
        if has_test_ok marked.log
        then JobOutcome.passed
        else JobOutcome.failed (test_err "bkpt without preceding Test OK"))
unfolding spawn attaches checks attach check_stop new touch receives receive is_test_ok trim
receives-bkpt_example = receives-bkpt limits (omega arith) (omega arith) 0 true to_marked refl

-- The marker inside a longer message does not count.
marker_within : is_test_ok (record marker { message = "not Test OK" }) ≡ false
unfolding is_test_ok trim
marker_within = refl
