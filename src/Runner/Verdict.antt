-- ===== src/Runner/Verdict.antt =====
-- What an outcome of the worker says of its run: crates/paavo-runner/src/worker.rs and watchdog.rs.
pub mod Sound
pub mod Kept
use paavo.Prelude.{
  ℕ, ◌+◌, ◌-◌, ◌*◌, ◌/◌, ◌^◌, ◌≤◌, ◌<◌, min, ◌≡◌, refl, sym, ◌∙◌, ap, ◌⊎◌, inl, inr, Bool, true,
  false, ◌&&◌, ◌||◌, String, Option, none, some, List, [], ◌∷◌, ◌++◌, arith, ltb, if◌then◌else◌,
  Bool-cases,
}
use paavo.Proto.Job.{
  JobOutcome, build_err, test_err, infra_err, TimeoutReason, user, interrupted, AbortReason,
}
use paavo.Proto.Log.{LogFrame}
use paavo.Daemon.Registry.{RunCommand, cancel}
use paavo.Runner.{
  JobInputs, Event, log_frame, bkpt, panic, disconnect, StopReason, inactivity, hard_max,
  user_cancel, daemon_shutdown, WatchdogState, from_millis, new, touch,
}
use paavo.Runner.Watchdog.{look_at_clocks, run_watchdog}
use paavo.Runner.Worker.{
  Answer, event, quiet, failure, Worker, attaching, driving, polling, reporting, joined, max_u64,
  elapsed_ms, finalise_for_stop, is_test_ok, attach, check_stop, receive,
}
use paavo.Runner.Steps.{
  Watchdog, sleeping, returned, Run, spawn, pass, attaches, checks, receives, Step, waits,
  commanded, passes, attached, checked, received, reported, Reaches, start, next, after_pass,
}

-- Some frame of the log is the marker of a pass.
abbrev pub has_test_ok : List LogFrame → Bool
has_test_ok [] = false
has_test_ok (f ∷ fs) = is_test_ok f || has_test_ok fs

pub has_test_ok-snoc :
    (fs : List LogFrame) (f : LogFrame)
    → has_test_ok (fs ++ f ∷ []) ≡ (is_test_ok f || has_test_ok fs)
has_test_ok-snoc [] f = refl
has_test_ok-snoc (g ∷ fs) f = ground (arith, has_test_ok-snoc fs f)

pub has_test_ok-nil : (fs : List LogFrame) → has_test_ok (fs ++ []) ≡ has_test_ok fs
has_test_ok-nil [] = refl
has_test_ok-nil (g ∷ fs) = ground (arith, has_test_ok-nil fs)

module _ (inputs : JobInputs) where
  -- What is so of a run that ends, or is about to end, with an outcome.
  abbrev pub Justifies : List LogFrame → Option StopReason → JobOutcome → Type 0
  Justifies log reason JobOutcome.passed = has_test_ok log ≡ true
  Justifies log reason (JobOutcome.failed (build_err message)) = ⊥
  Justifies log reason (JobOutcome.failed (test_err message)) = Unit
  Justifies log reason (JobOutcome.failed (infra_err stage message)) =
      (stage ≡ "probe_attach") ⊎ ((stage ≡ "probe_disconnect") ⊎ (stage ≡ "probe_io"))
  Justifies log reason (JobOutcome.timed_out TimeoutReason.inactivity ms) =
      (reason ≡ some inactivity) × (inputs.inactivity_timeout_ms ≤ ms) × (ms ≤ max_u64)
  Justifies log reason (JobOutcome.timed_out TimeoutReason.hard_max ms) =
      (reason ≡ some hard_max) × (inputs.hard_max_ms ≤ ms) × (ms ≤ max_u64)
  Justifies log reason (JobOutcome.aborted user) = reason ≡ some user_cancel
  Justifies log reason (JobOutcome.aborted AbortReason.daemon_shutdown) =
      reason ≡ some daemon_shutdown
  Justifies log reason (JobOutcome.aborted interrupted) = ⊥

  -- The worker's flag is right about the log.
  abbrev pub WorkerFits : List LogFrame → Option StopReason → Worker → Type 0
  WorkerFits log reason attaching = has_test_ok log ≡ false
  WorkerFits log reason (driving seen) = seen ≡ has_test_ok log
  WorkerFits log reason (polling seen) = seen ≡ has_test_ok log
  WorkerFits log reason (reporting outcome) = Justifies log reason outcome
  WorkerFits log reason (joined outcome) = Justifies log reason outcome

  -- The watchdog stops a run for its clocks only when they are past their limits.
  abbrev pub StopFits : ℕ → Option StopReason → Type 0
  StopFits elapsed none = Unit
  StopFits elapsed (some inactivity) = from_millis inputs.inactivity_timeout_ms < elapsed
  StopFits elapsed (some hard_max) = from_millis inputs.hard_max_ms < elapsed
  StopFits elapsed (some user_cancel) = Unit
  StopFits elapsed (some daemon_shutdown) = Unit

  -- A watchdog that goes on has recorded no stop.
  abbrev pub WatchdogFits : Option StopReason → Watchdog → Type 0
  WatchdogFits reason (sleeping wake) = reason ≡ none
  WatchdogFits reason returned = Unit

  pub record IsSound (r : Run) : Type 0 where
    pub started : r.watch.started_at ≤ r.watch.last_activity
    pub active : r.watch.last_activity ≤ r.clock
    pub stop : StopFits (r.clock - r.watch.started_at) r.watch.stop_reason
    pub watchdog : WatchdogFits r.watch.stop_reason r.watchdog
    pub worker : WorkerFits r.log r.watch.stop_reason r.worker
