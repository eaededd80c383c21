-- ===== src/Examples/Histories.antt =====
-- The theorems on the daemon, tried on short histories.
use paavo.Prelude.{
  ℕ, zero, suc, Memᴰ, head, ◌<◌, ◌≡◌, true, false, none, some, List, [], ◌∷◌, refl, map, arith,
  count_where, find_where, rows_where, update_where,
}
use paavo.Proto.Job.{JobState, JobOutcome, is_terminal, interactive}
use paavo.Db.Store.{Database, JobRow, decode_all}
use paavo.Db.Job.Queries.{list_awaiting_board, list_submitted, building_tar_blake3s}
use paavo.Db.Board.{find_healthy_for_selector, reset_infra_failures, touch_last_used}
use paavo.Prelude.Sort.{sort_by}
use paavo.Proto.Board.{matches}
use paavo.Core.Scheduler.{lru_pick}
use paavo.Db.Job.Invariant.{IsValid}
use paavo.Daemon.Registry.{cancel, daemon_shutdown, entry, register, take_receiver, taken}
use paavo.Daemon.Registry.Signals.{signal_each, signals-reach_worker}
use paavo.Daemon.State.{Daemon}
use paavo.Daemon.Loops.{Others, run_stage, build_stage}
use paavo.Daemon.Dispatch.{built, look_up, build_done}
use paavo.Daemon.Steps.{
  Event, submits, build_looks_up, build_returns, build_releases, build_finishes, run_returns,
  cancels, Step, happens, picks_run, picks_build, claims, restarts, run, start,
}
use paavo.Daemon.History.{history-IsValid}
use paavo.Daemon.Claims.{IsSafe}
use paavo.Daemon.Outcomes.{run-mem}
use paavo.Daemon.Loops.Arrivals.{may_wait}
use paavo.Daemon.Loops.Ends.{run_stage_ends}
use paavo.Daemon.Loops.Fills.{build_stage_ends}
use paavo.Examples.{
  built as ready, nightly, config, spec_of, enqueue_of, request, disk, ready_db, queue_db,
}

-- A job from its submission to its end, with a second one that is cancelled on the way.
abbrev one_job : List Step
one_job =
    happens (submits (enqueue_of (request 1 interactive "aa")) 10)
    ∷ picks_build 11
    ∷ happens (submits (enqueue_of (request 2 interactive "aa")) 12)
    ∷ claims
    ∷ happens (build_looks_up 1 disk 13)
    ∷ happens (build_returns 1 disk none 14 (built "/target/a.elf"))
    ∷ happens (build_releases 1)
    ∷ happens (build_finishes 1 15)
    ∷ picks_run 16
    ∷ happens (cancels 2 17)
    ∷ claims
    ∷ happens (run_returns 1 JobOutcome.passed true 18)
    ∷ []

history-IsValid_example :
    IsValid (run config one_job (start config (spec_of "rack" ∷ []) 0)).daemon.db.jobs
history-IsValid_example = history-IsValid config (spec_of "rack" ∷ []) 0 one_job

abbrev idle : Database → Daemon
idle db = record {
  db = db;
  inventory = [];
  draining = false;
  free_slots = 0 ∷ 1 ∷ [];
  builds = [];
  runs = [];
  cancellation = [];
  build_cancel = [];
}

two_waiting : count_where may_wait (idle ready_db).db.jobs < 3
unfolding count_where
two_waiting = omega arith

-- In each round a job is cancelled before the claim, and a build released after it.
abbrev meanwhile : Others
meanwhile = record {
  before_claim = λ k. cancels k 5 ∷ [];
  after_claim = λ k. build_releases 1 ∷ [];
}

run_stage_ends_example :
    (after : Daemon) × (run_stage config (λ n. n) meanwhile 3 (idle ready_db) ≡ some after)
run_stage_ends_example = run_stage_ends config (λ n. n) meanwhile 3 (idle ready_db) two_waiting

-- A build is released in the first round.
abbrev first_round : ℕ → List Event
first_round (suc (suc (suc zero))) = build_releases 1 ∷ []
first_round k = []

abbrev once : Others
once = record { before_claim = λ k. []; after_claim = first_round }

build_stage_ends_example :
    (after : Daemon) × (build_stage config (λ n. n) once 4 (idle queue_db) ≡ some after)
build_stage_ends_example = build_stage_ends config (λ n. n) once 4 (idle queue_db) (omega arith)

signals-reach_worker_example :
    let told = signal_each 1 (cancel ∷ []) (register 1 []) in
    ((take_receiver 1 told).1 ≡ true)
    × ((take_receiver 1 (take_receiver 1 told).0).1 ≡ false)
    × (entry 1 (signal_each 1 (daemon_shutdown ∷ []) (take_receiver 1 told).0)
        ≡ some (record { sent = cancel ∷ daemon_shutdown ∷ []; receiver = taken }))
signals-reach_worker_example = signals-reach_worker 1 (cancel ∷ []) (daemon_shutdown ∷ []) []

-- The first job passes on the board; the second, of the same tar, is cancelled before it is built.
one_job_ends :
    map
      (λ (row : JobRow). row.state)
      (run config one_job (start config (spec_of "rack" ∷ []) 0)).daemon.db.jobs
    ≡ JobState.passed ∷ JobState.aborted ∷ []
unfolding run find_where list_awaiting_board decode_all sort_by rows_where list_submitted
    count_where matches building_tar_blake3s update_where look_up build_done
    find_healthy_for_selector lru_pick reset_infra_failures touch_last_used
one_job_ends = refl

abbrev passed_row : JobRow
passed_row = record (ready nightly) {
  state = JobState.passed;
  board_id = some "rack";
  outcome = some JobOutcome.passed;
  finished_at = some 300;
}

abbrev passed_db : Database
passed_db = record (queue_db) { jobs = passed_row ∷ [] }

passed_db-IsSafe : IsSafe none passed_db.jobs
unfolding count_where
passed_db-IsSafe = (
  record {
    unique = λ id. ground arith;
    exclusive = λ b. omega arith;
    single_flight = λ tar. omega arith;
    consistent = (record { finished = refl; progress = tt }, tt);
  },
  tt,
)

-- A cancel of the job, a round of each stage, and a restart.
abbrev aftermath : List Step
aftermath =
    happens (cancels 1 400)
    ∷ picks_run 401
    ∷ claims
    ∷ picks_build 402
    ∷ claims
    ∷ restarts [] 500
    ∷ []

run-mem_example :
    Memᴰ passed_row
      (run config aftermath
        (record { daemon = idle passed_db; picked = none; up = true })).daemon.db.jobs
unfolding is_terminal
run-mem_example =
    run-mem config aftermath (record { daemon = idle passed_db; picked = none; up = true })
      passed_row refl passed_db-IsSafe (refl, (refl, (refl, (refl, (refl, (refl, tt))))))
      (head refl)
