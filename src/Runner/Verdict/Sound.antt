-- ===== src/Runner/Verdict/Sound.antt =====
-- Every step of a run keeps what its outcome will say true.
use paavo.Prelude.{
  ℕ, ◌-◌, ◌^◌, ◌≤◌, ◌<◌, ◌≡◌, refl, inl, inr, Bool, true, false, Option, none, some, List, [], ◌∷◌,
  arith, ltb, Bool-cases,
}
use paavo.Proto.Job.{
  JobOutcome, build_err, test_err, infra_err, TimeoutReason, user, interrupted, AbortReason,
}
use paavo.Proto.Log.{LogFrame}
use paavo.Daemon.Registry.{RunCommand, cancel}
use paavo.Runner.{
  JobInputs, StopReason, inactivity, hard_max, user_cancel, daemon_shutdown, WatchdogState,
  from_millis, new,
}
use paavo.Runner.Watchdog.{look_at_clocks, run_watchdog}
use paavo.Runner.Worker.{
  Worker, attaching, driving, polling, reporting, joined, max_u64, elapsed_ms, finalise_for_stop,
}
use paavo.Runner.Steps.{spawn, after_pass}
use paavo.Runner.Verdict.{Justifies, WorkerFits, StopFits, WatchdogFits, IsSound}

module _ (inputs : JobInputs) where
  pub spawn-IsSound : (now : ℕ) → IsSound inputs (spawn now)
  unfolding spawn new
  spawn-IsSound now = record {
    started = omega arith;
    active = omega arith;
    stop = tt;
    watchdog = refl;
    worker = refl;
  }

  pub StopFits-mono :
      (a b : ℕ) (o : Option StopReason) → a ≤ b → StopFits inputs a o → StopFits inputs b o
  StopFits-mono a b none le h = tt
  StopFits-mono a b (some inactivity) le h = omega arith
  StopFits-mono a b (some hard_max) le h = omega arith
  StopFits-mono a b (some user_cancel) le h = tt
  StopFits-mono a b (some daemon_shutdown) le h = tt

  look-fits :
      (now : ℕ) (s : WatchdogState)
      → s.started_at ≤ s.last_activity
      → s.stop_reason ≡ none
      → StopFits inputs (now - s.started_at) (look_at_clocks inputs now s).0.stop_reason
        × WatchdogFits inputs
            (look_at_clocks inputs now s).0.stop_reason
            (after_pass now (look_at_clocks inputs now s).1)
        × ((look_at_clocks inputs now s).0.started_at ≡ s.started_at)
        × ((look_at_clocks inputs now s).0.last_activity ≡ s.last_activity)
  unfolding look_at_clocks
  look-fits now s le e =
      elim (Bool-cases (ltb (from_millis inputs.inactivity_timeout_ms) (now - s.last_activity))) [
        | inl silent ↦ rw silent ((ground arith), tt, refl, refl)
        | inr heard ↦
            elim (Bool-cases (ltb (from_millis inputs.hard_max_ms) (now - s.started_at))) [
              | inl long ↦ rw (heard, long) ((ground arith), tt, refl, refl)
              | inr short ↦ rw (heard, short, e) (tt, refl, refl, refl)
            ]
      ]

  Justifies-of_none :
      (log : List LogFrame) (reason : Option StopReason) (o : JobOutcome)
      → Justifies inputs log none o
      → Justifies inputs log reason o
  Justifies-of_none log reason JobOutcome.passed h = h
  Justifies-of_none log reason (JobOutcome.failed (build_err message)) h = h
  Justifies-of_none log reason (JobOutcome.failed (test_err message)) h = h
  Justifies-of_none log reason (JobOutcome.failed (infra_err stage message)) h = h
  Justifies-of_none log reason (JobOutcome.timed_out TimeoutReason.inactivity ms) h =
      absurd (cc h.0)
  Justifies-of_none log reason (JobOutcome.timed_out TimeoutReason.hard_max ms) h = absurd (cc h.0)
  Justifies-of_none log reason (JobOutcome.aborted user) h = absurd (cc h)
  Justifies-of_none log reason (JobOutcome.aborted AbortReason.daemon_shutdown) h = absurd (cc h)
  Justifies-of_none log reason (JobOutcome.aborted interrupted) h = h

  pub WorkerFits-of_none :
      (log : List LogFrame) (reason : Option StopReason) (w : Worker)
      → WorkerFits inputs log none w
      → WorkerFits inputs log reason w
  WorkerFits-of_none log reason attaching h = h
  WorkerFits-of_none log reason (driving seen) h = h
  WorkerFits-of_none log reason (polling seen) h = h
  WorkerFits-of_none log reason (reporting o) h = Justifies-of_none log reason o h
  WorkerFits-of_none log reason (joined o) h = Justifies-of_none log reason o h

  module _ (small_inactivity : inputs.inactivity_timeout_ms < 2 ^ 64)
      (small_hard_max : inputs.hard_max_ms < 2 ^ 64) where
    elapsed_ms-within :
        (limit now : ℕ) (s : WatchdogState)
        → limit < 2 ^ 64
        → from_millis limit < now - s.started_at
        → (limit ≤ elapsed_ms now s) × (elapsed_ms now s ≤ max_u64)
    unfolding elapsed_ms
    elapsed_ms-within limit now s small past = (omega arith, omega arith)

    pub finalise_for_stop-Justifies :
        (log : List LogFrame) (reason : StopReason) (now : ℕ) (s : WatchdogState)
        → StopFits inputs (now - s.started_at) (some reason)
        → Justifies inputs log (some reason) (finalise_for_stop reason now s)
    unfolding finalise_for_stop
    finalise_for_stop-Justifies log inactivity now s past =
        let (low, high) =
          elapsed_ms-within inputs.inactivity_timeout_ms now s small_inactivity past in
        (refl, low, high)
    finalise_for_stop-Justifies log hard_max now s past =
        let (low, high) = elapsed_ms-within inputs.hard_max_ms now s small_hard_max past in
        (refl, low, high)
    finalise_for_stop-Justifies log user_cancel now s past = refl
    finalise_for_stop-Justifies log daemon_shutdown now s past = refl

  pub pass-fits :
      (now : ℕ) (done : Bool) (commands : List RunCommand) (s : WatchdogState)
      → s.started_at ≤ s.last_activity
      → s.stop_reason ≡ none
      → StopFits inputs (now - s.started_at) (run_watchdog inputs now done commands s).0.stop_reason
        × WatchdogFits inputs
            (run_watchdog inputs now done commands s).0.stop_reason
            (after_pass now (run_watchdog inputs now done commands s).2)
        × ((run_watchdog inputs now done commands s).0.started_at ≡ s.started_at)
        × ((run_watchdog inputs now done commands s).0.last_activity ≡ s.last_activity)
  unfolding run_watchdog
  pass-fits now true commands s le e = rw e (tt, tt, refl, refl)
  pass-fits now false (cancel ∷ commands) s le e = (tt, tt, refl, refl)
  pass-fits now false (RunCommand.daemon_shutdown ∷ commands) s le e = (tt, tt, refl, refl)
  pass-fits now false [] s le e = look-fits now s le e
