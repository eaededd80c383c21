-- ===== src/Runner/Stop.antt =====
-- A stop of the watchdog ends the run: crates/paavo-runner/src/watchdog.rs and worker.rs.
use paavo.Prelude.{
  ℕ, ◌+◌, ◌-◌, ◌^◌, ◌≤◌, ◌<◌, ◌≡◌, refl, sym, subst, ◌∙◌, ◌⊎◌, inl, inr, Bool, true, false, Option,
  none, some, List, [], ◌∷◌, arith, Bool-cases,
}
use paavo.Daemon.Registry.{RunCommand}
use paavo.Runner.{
  JobInputs, log_frame, bkpt, panic, disconnect, StopReason, WatchdogState, from_millis, touch,
}
use paavo.Runner.Watchdog.{look_at_clocks, run_watchdog}
use paavo.Runner.Worker.{
  Answer, event, quiet, failure, Worker, attaching, driving, polling, reporting, joined, check_stop,
  receive,
}
use paavo.Runner.Steps.{
  sleeping, Run, spawn, pass, checks, receives, Step, waits, commanded, passes, attached, checked,
  received, reported, Reaches, start, next, in_loop, rounds, worker_done,
}
use paavo.Runner.Verdict.{WatchdogFits, IsSound}
use paavo.Runner.Verdict.Sound.{spawn-IsSound}
use paavo.Runner.Verdict.Kept.{pass-IsSound, Reaches-IsSound}

abbrev pub is_stopped : Option StopReason → Bool
is_stopped none = false
is_stopped (some reason) = true

-- The worker is in its loop at the head, inside `next_event`, or out of it.
abbrev pub distance : Worker → ℕ
distance attaching = 3
distance (driving seen) = 1
distance (polling seen) = 2
distance (reporting outcome) = 0
distance (joined outcome) = 0

abbrev pub in_session : Worker → Bool
in_session attaching = false
in_session _ = true

-- A stop is recorded, or the worker has its outcome.
abbrev pub IsEnding : Run → Type 0
IsEnding r = (is_stopped r.watch.stop_reason ≡ true) ⊎ (distance r.worker ≡ 0)

-- One step nearer to the outcome, or none further away.
abbrev Nearer : ℕ → Run → Run → Type 0
Nearer n r s =
    IsEnding s × (in_session s.worker ≡ true) × (distance s.worker + n ≤ distance r.worker)

checks-Nearer :
    (r : Run) (seen : Bool) (o : Option StopReason)
    → r.watch.stop_reason ≡ o
    → r.worker ≡ driving seen
    → IsEnding r
    → Nearer 1 r (checks seen r)
unfolding checks check_stop
checks-Nearer r seen none stop e (inl h) = absurd (cc (stop, h))
checks-Nearer r seen none stop e (inr h) = absurd (omega (arith, subst (λ w. distance w ≡ 0) e h))
checks-Nearer r seen (some reason) stop e h = rw (stop, e) (inl refl, refl, omega arith)

receives-Nearer :
    (r : Run) (seen : Bool) (answer : Answer)
    → r.worker ≡ polling seen
    → IsEnding r
    → Nearer 1 r (receives seen answer r)
unfolding receives receive touch
receives-Nearer r seen (event (log_frame f)) e (inr h) =
    absurd (omega (arith, subst (λ w. distance w ≡ 0) e h))
receives-Nearer r seen (event (log_frame f)) e (inl h) = rw e (inl h, refl, omega arith)
receives-Nearer r seen (event bkpt) e h = rw e (inr refl, refl, omega arith)
receives-Nearer r seen (event (panic message)) e h = rw e (inr refl, refl, omega arith)
receives-Nearer r seen (event disconnect) e h = rw e (inr refl, refl, omega arith)
receives-Nearer r seen quiet e (inr h) = absurd (omega (arith, subst (λ w. distance w ≡ 0) e h))
receives-Nearer r seen quiet e (inl h) = rw e (inl h, refl, omega arith)
receives-Nearer r seen (failure message) e h = rw e (inr refl, refl, omega arith)

abbrev pub has_outcome : Worker → Bool
has_outcome (reporting outcome) = true
has_outcome (joined outcome) = true
has_outcome _ = false

has_outcome_of_distance : (w : Worker) → distance w ≡ 0 → has_outcome w ≡ true
has_outcome_of_distance w h = ground arith

module _ (inputs : JobInputs) where
  -- The watchdog has cause to stop the run: a command, or a clock past its limit.
  abbrev pub IsDue : Run → Type 0
  IsDue r =
      (from_millis inputs.hard_max_ms < r.clock - r.watch.started_at)
      ⊎ ((from_millis inputs.inactivity_timeout_ms < r.clock - r.watch.last_activity)
          ⊎ ((c : RunCommand) × (rest : List RunCommand) × (r.commands ≡ c ∷ rest)))

  look_at_clocks-stops :
      (now : ℕ) (s : WatchdogState)
      → (from_millis inputs.hard_max_ms < now - s.started_at)
        ⊎ (from_millis inputs.inactivity_timeout_ms < now - s.last_activity)
      → is_stopped (look_at_clocks inputs now s).0.stop_reason ≡ true
  unfolding look_at_clocks
  look_at_clocks-stops now s h = ground arith

  run_watchdog-stops :
      (r : Run) (commands : List RunCommand) (done : Bool)
      → r.commands ≡ commands
      → done ≡ false
      → IsDue r
      → is_stopped (run_watchdog inputs r.clock done commands r.watch).0.stop_reason ≡ true
  unfolding run_watchdog
  run_watchdog-stops r commands true e d due = cc
  run_watchdog-stops r (c ∷ rest) false e d due = refl
  run_watchdog-stops r [] false e d (inl long) = look_at_clocks-stops r.clock r.watch (inl long)
  run_watchdog-stops r [] false e d (inr (inl silent)) =
      look_at_clocks-stops r.clock r.watch (inr silent)
  run_watchdog-stops r [] false e d (inr (inr (c, rest, f))) = cc (sym e ∙ f)

  worker_done-distance : (w : Worker) → worker_done w ≡ true → distance w ≡ 0
  worker_done-distance w h = ground arith

  pass-IsEnding : (r : Run) → IsDue r → IsEnding (pass inputs r)
  unfolding pass
  pass-IsEnding r due = elim (Bool-cases (worker_done r.worker)) [
    | inl finished ↦ inr (worker_done-distance r.worker finished)
    | inr going ↦ inl (run_watchdog-stops r r.commands (worker_done r.worker) refl going due)
  ]

  pass-Nearer :
      (r : Run) (wake : ℕ)
      → r.watchdog ≡ sleeping wake
      → IsSound inputs r
      → in_session r.worker ≡ true
      → IsEnding r
      → Nearer 0 r (pass inputs r)
  unfolding pass
  pass-Nearer r wake e i live (inr h) = (inr h, live, omega arith)
  pass-Nearer r wake e i live (inl h) =
      absurd (cc (h, subst (WatchdogFits inputs r.watch.stop_reason) e i.watchdog))

  Step-Nearer :
      {r s : Run} (step : Step inputs r s)
      → IsSound inputs r
      → in_session r.worker ≡ true
      → IsEnding r
      → Nearer (in_loop inputs step) r s
  Step-Nearer (waits {r} t le) i live h = (h, live, omega arith)
  Step-Nearer (commanded {r} command) i live h = (h, live, omega arith)
  Step-Nearer (passes {r} wake e le) i live h = pass-Nearer r wake e i live h
  Step-Nearer (attached {r} answer e) i live h = absurd (cc (rw e at live))
  Step-Nearer (checked {r} seen e) i live h = checks-Nearer r seen r.watch.stop_reason refl e h
  Step-Nearer (received {r} seen answer e) i live h = receives-Nearer r seen answer e h
  Step-Nearer (reported {r} outcome e) i live h = (inr refl, refl, omega arith)

  module _ (small_inactivity : inputs.inactivity_timeout_ms < 2 ^ 64)
      (small_hard_max : inputs.hard_max_ms < 2 ^ 64) where
    Reaches-Nearer :
        {r s : Run} (way : Reaches inputs r s)
        → IsSound inputs r
        → in_session r.worker ≡ true
        → IsEnding r
        → Nearer (rounds inputs way) r s
    Reaches-Nearer start i live h = (h, live, omega arith)
    Reaches-Nearer (next before step) i live h =
        let (ending, alive, near) = Reaches-Nearer before i live h in
        let sound = Reaches-IsSound inputs small_inactivity small_hard_max before i in
        let (ending', alive', near') = Step-Nearer step sound alive ending in
        (ending', alive', omega arith)

    -- With limits that fit 64 bits, once a session is live and the watchdog makes a pass when a
    -- command waits or a clock is past its limit, the worker has its outcome after at most two more
    -- steps of its loop, whatever else comes between.
    pub due-ends :
        (now wake : ℕ) {r s : Run}
        → Reaches inputs (spawn now) r
        → in_session r.worker ≡ true
        → r.watchdog ≡ sleeping wake
        → IsDue r
        → (way : Reaches inputs (pass inputs r) s) → 2 ≤ rounds inputs way
        → has_outcome s.worker ≡ true
    unfolding pass
    due-ends now wake {r} {s} before live e due way enough =
        let sound =
          Reaches-IsSound inputs small_inactivity small_hard_max before
            (spawn-IsSound inputs now) in
        let (_, _, near) =
          Reaches-Nearer way (pass-IsSound inputs r wake e sound) live (pass-IsEnding r due) in
        has_outcome_of_distance s.worker (ground (arith, near, enough))
