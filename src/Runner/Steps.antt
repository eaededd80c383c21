-- ===== src/Runner/Steps.antt =====
-- A run of crates/paavo-runner: the worker, its watchdog, its caller and the clock, in any order.
use paavo.Prelude.{
  ℕ, ◌+◌, ◌≤◌, ◌≡◌, Bool, true, false, String, Option, List, [], ◌∷◌, ◌++◌, if◌then◌else◌,
}
use paavo.Proto.Job.{JobOutcome}
use paavo.Proto.Log.{LogFrame}
use paavo.Daemon.Registry.{RunCommand}
use paavo.Runner.{JobInputs, WatchdogState, new, from_millis}
use paavo.Runner.Watchdog.{run_watchdog}
use paavo.Runner.Worker.{
  Answer, Worker, attaching, driving, polling, reporting, joined, attach, check_stop, receive,
}

-- The watchdog's thread sleeps until an instant, or has returned.
pub data Watchdog : Type 0 where
  sleeping : ℕ → Watchdog
  returned : Watchdog

pub record Run : Type 0 where
  pub clock : ℕ
  pub watch : WatchdogState
  pub commands : List RunCommand
  pub watchdog : Watchdog
  pub worker : Worker
  pub log : List LogFrame

-- Both threads have been spawned.
unfoldable pub spawn : ℕ → Run
unfolding new
spawn now = record {
  clock = now;
  watch = new now;
  commands = [];
  watchdog = sleeping now;
  worker = attaching;
  log = [];
}

-- `worker_done_tx.send(())`
abbrev pub worker_done : Worker → Bool
worker_done (joined outcome) = true
worker_done _ = false

-- The tick is 100 ms.
abbrev pub after_pass : ℕ → Bool → Watchdog
after_pass now again = if again then sleeping (now + from_millis 100) else returned

unfoldable pub pass : JobInputs → Run → Run
unfolding run_watchdog
pass inputs r =
    let (s, commands, again) =
      run_watchdog inputs r.clock (worker_done r.worker) r.commands r.watch in
    record r { watch = s; commands = commands; watchdog = after_pass r.clock again }

unfoldable pub attaches : Option String → Run → Run
unfolding attach
attaches answer r = let (s, w) = attach answer r.clock r.watch in record r { watch = s; worker = w }

unfoldable pub checks : Bool → Run → Run
unfolding check_stop
checks seen r = record r { worker = check_stop seen r.clock r.watch }

unfoldable pub receives : Bool → Answer → Run → Run
unfolding receive
receives seen answer r =
    let (s, frames, w) = receive seen answer r.clock r.watch in
    record r { watch = s; log = r.log ++ frames; worker = w }

module _ (inputs : JobInputs) where
  pub data Step : Run → Run → Type 0 where
    waits : {r : Run} (t : ℕ) → r.clock ≤ t → Step r (record r { clock = t })
    commanded :
        {r : Run} (command : RunCommand)
        → Step r (record r { commands = r.commands ++ command ∷ [] })
    passes :
        {r : Run} (wake : ℕ) → r.watchdog ≡ sleeping wake → wake ≤ r.clock → Step r (pass inputs r)
    attached :
        {r : Run} (answer : Option String) → r.worker ≡ attaching → Step r (attaches answer r)
    checked : {r : Run} (seen : Bool) → r.worker ≡ driving seen → Step r (checks seen r)
    received :
        {r : Run} (seen : Bool) (answer : Answer)
        → r.worker ≡ polling seen
        → Step r (receives seen answer r)
    reported :
        {r : Run} (outcome : JobOutcome)
        → r.worker ≡ reporting outcome
        → Step r (record r { worker = joined outcome })

  pub data Reaches : Run → Run → Type 0 where
    start : {r : Run} → Reaches r r
    next : {r s t : Run} → Reaches r s → Step s t → Reaches r t

  -- The steps of the worker in its loop.
  abbrev pub in_loop : {r s : Run} → Step r s → ℕ
  in_loop (checked seen e) = 1
  in_loop (received seen answer e) = 1
  in_loop _ = 0

  abbrev pub rounds : {r s : Run} → Reaches r s → ℕ
  rounds start = 0
  rounds (next before step) = rounds before + in_loop step
