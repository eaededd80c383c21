-- ===== src/Runner/Watchdog.antt =====
-- `run_watchdog` of crates/paavo-runner/src/watchdog.rs: one pass of its loop.
use paavo.Prelude.{ℕ, ◌-◌, Bool, true, false, some, List, [], ◌∷◌, ltb, if◌then◌else◌}
use paavo.Daemon.Registry.{RunCommand}
use paavo.Runner.{JobInputs, StopReason, inactivity, hard_max, WatchdogState, from_millis, stop_of}

abbrev pub stop_with : StopReason → WatchdogState → WatchdogState
stop_with reason s = record s { stop_reason = some reason }

-- The two clocks; `true` is to sleep and go round again. `duration_since` stops at 0.
unfoldable pub look_at_clocks : JobInputs → ℕ → WatchdogState → WatchdogState × Bool
look_at_clocks inputs now s =
    if ltb (from_millis inputs.inactivity_timeout_ms) (now - s.last_activity)
    then (stop_with inactivity s, false)
    else if ltb (from_millis inputs.hard_max_ms) (now - s.started_at)
    then (stop_with hard_max s, false)
    else (s, true)

-- A pass: has the worker finished, is there a command, are the clocks within their limits. It
-- leaves the state, the commands not received and whether the loop goes on.
unfoldable pub run_watchdog :
    JobInputs → ℕ → Bool → List RunCommand → WatchdogState → WatchdogState × List RunCommand × Bool
unfolding look_at_clocks
run_watchdog inputs now true commands s = (s, commands, false)
run_watchdog inputs now false (command ∷ commands) s =
    (stop_with (stop_of command) s, commands, false)
run_watchdog inputs now false [] s =
    let (after, again) = look_at_clocks inputs now s in (after, [], again)
