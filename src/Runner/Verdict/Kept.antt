-- ===== src/Runner/Verdict/Kept.antt =====
-- The outcome of every run is justified: crates/paavo-runner/src/worker.rs.
use paavo.Prelude.{
  ℕ, ◌-◌, ◌^◌, ◌<◌, ◌≡◌, refl, sym, ap, subst, ◌∙◌, Bool, true, false, ◌||◌, String, Option, none,
  some, List, [], ◌++◌, arith, inl, inr, if◌then◌else◌,
}
use paavo.Proto.Job.{JobOutcome, test_err}
use paavo.Proto.Log.{LogFrame}
use paavo.Runner.{JobInputs, log_frame, bkpt, panic, disconnect, StopReason, touch}
use paavo.Runner.Worker.{
  Answer, event, quiet, failure, Worker, attaching, driving, polling, reporting, joined, is_test_ok,
  attach, check_stop, receive,
}
use paavo.Runner.Steps.{
  sleeping, Run, spawn, pass, attaches, checks, receives, Step, waits, commanded, passes, attached,
  checked, received, reported, Reaches, start, next, worker_done,
}
use paavo.Runner.Verdict.{
  has_test_ok, has_test_ok-snoc, has_test_ok-nil, StopFits, Justifies, WorkerFits, WatchdogFits,
  IsSound,
}
use paavo.Runner.Verdict.Sound.{
  spawn-IsSound, StopFits-mono, pass-fits, WorkerFits-of_none, finalise_for_stop-Justifies,
}

module _ (inputs : JobInputs) where
  pub pass-IsSound :
      (r : Run) (wake : ℕ)
      → r.watchdog ≡ sleeping wake
      → IsSound inputs r
      → IsSound inputs (pass inputs r)
  unfolding pass
  pass-IsSound r wake e i =
      let fresh = subst (WatchdogFits inputs r.watch.stop_reason) e i.watchdog in
      let (stop, dog, same, last) =
        pass-fits inputs r.clock (worker_done r.worker) r.commands r.watch i.started fresh in
      record {
        started = omega (arith, i.started, same, last);
        active = omega (arith, i.active, last);
        stop = rw same stop;
        watchdog = dog;
        worker =
            WorkerFits-of_none inputs r.log _ r.worker
              (subst (λ o. WorkerFits inputs r.log o r.worker) fresh i.worker);
      }

  module _ (r : Run) (i : IsSound inputs r) where
    fits_of : (w : Worker) → r.worker ≡ w → WorkerFits inputs r.log r.watch.stop_reason w
    fits_of w e = subst (WorkerFits inputs r.log r.watch.stop_reason) e i.worker

    attaches-IsSound :
        (answer : Option String) → r.worker ≡ attaching → IsSound inputs (attaches answer r)
    unfolding attaches attach touch
    attaches-IsSound none e = record {
      started = omega (arith, i.started, i.active);
      active = omega arith;
      stop = i.stop;
      watchdog = i.watchdog;
      worker = sym (fits_of attaching e);
    }
    attaches-IsSound (some message) e = record {
      started = i.started;
      active = i.active;
      stop = i.stop;
      watchdog = i.watchdog;
      worker = inl refl;
    }

    -- The worker moves on, and neither the clocks nor a stop change.
    moved-IsSound :
        (w : Worker) (frames : List LogFrame)
        → WorkerFits inputs (r.log ++ frames) r.watch.stop_reason w
        → IsSound inputs (record r { worker = w; log = r.log ++ frames })
    moved-IsSound w frames fits = record {
      started = i.started;
      active = i.active;
      stop = i.stop;
      watchdog = i.watchdog;
      worker = fits;
    }

    receives-IsSound :
        (seen : Bool) (answer : Answer)
        → r.worker ≡ polling seen
        → IsSound inputs (receives seen answer r)
    unfolding receives receive touch
    receives-IsSound seen (event (log_frame f)) e = record {
      started = omega (arith, i.started, i.active);
      active = omega arith;
      stop = i.stop;
      watchdog = i.watchdog;
      worker =
          ap (λ b. is_test_ok f || b) (fits_of (polling seen) e) ∙ sym (has_test_ok-snoc r.log f);
    }
    receives-IsSound true (event bkpt) e =
        moved-IsSound _ [] (has_test_ok-nil r.log ∙ sym (fits_of (polling true) e))
    receives-IsSound false (event bkpt) e = moved-IsSound _ [] tt
    receives-IsSound seen (event (panic message)) e = moved-IsSound _ [] tt
    receives-IsSound seen (event disconnect) e = moved-IsSound _ [] (inr (inl refl))
    receives-IsSound seen quiet e =
        moved-IsSound _ [] (fits_of (polling seen) e ∙ sym (has_test_ok-nil r.log))
    receives-IsSound seen (failure message) e = moved-IsSound _ [] (inr (inr refl))

  module _ (small_inactivity : inputs.inactivity_timeout_ms < 2 ^ 64)
      (small_hard_max : inputs.hard_max_ms < 2 ^ 64) where
    check_stop-fits :
        (r : Run) (seen : Bool) (o : Option StopReason)
        → r.watch.stop_reason ≡ o
        → r.worker ≡ driving seen
        → IsSound inputs r
        → WorkerFits inputs r.log r.watch.stop_reason (check_stop seen r.clock r.watch)
    unfolding check_stop
    check_stop-fits r seen none stop e i = rw stop (fits_of r i (driving seen) e)
    check_stop-fits r seen (some reason) stop e i =
        let past = subst (StopFits inputs (r.clock - r.watch.started_at)) stop i.stop in
        rw stop (
          finalise_for_stop-Justifies inputs small_inactivity small_hard_max r.log reason r.clock
            (record r.watch { stop_reason = some reason }) past)

    checks-IsSound :
        (r : Run) (seen : Bool)
        → r.worker ≡ driving seen
        → IsSound inputs r
        → IsSound inputs (checks seen r)
    unfolding checks
    checks-IsSound r seen e i = record {
      started = i.started;
      active = i.active;
      stop = i.stop;
      watchdog = i.watchdog;
      worker = check_stop-fits r seen r.watch.stop_reason refl e i;
    }

    pub Step-IsSound : {r s : Run} → Step inputs r s → IsSound inputs r → IsSound inputs s
    Step-IsSound (waits {r} t le) i = record {
      started = i.started;
      active = omega (arith, i.active, le);
      stop = StopFits-mono inputs _ _ r.watch.stop_reason (omega arith) i.stop;
      watchdog = i.watchdog;
      worker = i.worker;
    }
    Step-IsSound (commanded {r} command) i = record {
      started = i.started;
      active = i.active;
      stop = i.stop;
      watchdog = i.watchdog;
      worker = i.worker;
    }
    Step-IsSound (passes {r} wake e le) i = pass-IsSound r wake e i
    Step-IsSound (attached {r} answer e) i = attaches-IsSound r i answer e
    Step-IsSound (checked {r} seen e) i = checks-IsSound r seen e i
    Step-IsSound (received {r} seen answer e) i = receives-IsSound r i seen answer e
    Step-IsSound (reported {r} outcome e) i = record {
      started = i.started;
      active = i.active;
      stop = i.stop;
      watchdog = i.watchdog;
      worker = fits_of r i (reporting outcome) e;
    }

    pub Reaches-IsSound : {r s : Run} → Reaches inputs r s → IsSound inputs r → IsSound inputs s
    Reaches-IsSound start i = i
    Reaches-IsSound (next before step) i = Step-IsSound step (Reaches-IsSound before i)

    -- With limits that fit 64 bits, and in whatever order the worker, its watchdog, the commands and
    -- the clock take their steps from the spawn on: an outcome that the worker returns is passed
    -- only if a frame of the log is the marker, timed out only after the watchdog stopped the run
    -- for that limit, with at least the limit as its time, aborted only after a stop by that
    -- command, an infra failure only of attach, disconnect or probe input, and never a build error
    -- or an interruption.
    pub outcome-Justifies :
        (now : ℕ) {r : Run} (outcome : JobOutcome)
        → Reaches inputs (spawn now) r
        → r.worker ≡ joined outcome
        → Justifies inputs r.log r.watch.stop_reason outcome
    outcome-Justifies now {r} outcome way e =
        fits_of r (Reaches-IsSound way (spawn-IsSound inputs now)) (joined outcome) e

    -- With limits that fit 64 bits, whenever the worker receives a breakpoint, the run passes if a
    -- frame of its log is the marker, and is a test error otherwise.
    pub receives-bkpt :
        (now : ℕ) {r : Run} (seen : Bool)
        → Reaches inputs (spawn now) r
        → r.worker ≡ polling seen
        → (receives seen (event bkpt) r).worker
          ≡ reporting (
              if has_test_ok r.log
              then JobOutcome.passed
              else JobOutcome.failed (test_err "bkpt without preceding Test OK"))
    unfolding receives receive
    receives-bkpt now {r} seen way e =
        ap
          (λ b. reporting (
            if b
            then JobOutcome.passed
            else JobOutcome.failed (test_err "bkpt without preceding Test OK")))
          (fits_of r (Reaches-IsSound way (spawn-IsSound inputs now)) (polling seen) e)
