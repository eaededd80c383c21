-- ===== src/Daemon/Steps.antt =====
-- The daemon as the actions that it and its clients take, in any order: crates/paavod/src/dispatch.rs,
-- routes/jobs.rs, routes/boards.rs, routes/admin.rs and the start in main.rs.
use paavo.Prelude.{
  ℕ, zero, suc, ◌==◌, max, Bool, true, false, String, Option, none, some, List, [], ◌∷◌, ◌++◌,
  delete_where, update_where, find_where, map, inl, inr, if◌then◌else◌,
}
use paavo.Proto.Job.{JobId, JobOutcome, infra_err}
use paavo.Proto.Board.{BoardSpec, ProbeSelector}
use paavo.Proto.Selector.{Parsed, canonicalize}
use paavo.Db.Store.{empty, Database, BoardRow, Result, ok, err, panicked}
use paavo.Db.Board
use paavo.Db.Job.Restart.{abort_interrupted_jobs}
use paavo.Core.Enqueue.{EnqueueRequest}
use paavo.Daemon.Handlers.{
  post_job, cancel_job, add_board, quarantine_board, unquarantine_board, delete_board, purge,
}
use paavo.Core.BuildCache.{Disk}
use paavo.Daemon.Registry.{unregister}
use paavo.Daemon.State.{
  Config, Daemon, BuildTask, RunTask, BuildPhase, starting, cached, working, ended, released,
  terminal,
}
use paavo.Daemon.Dispatch.{
  BuildOutcome, Claim, choose_run, choose_build, claim, claim_if, advance, look_up, build_done,
  end_build, finalize_terminal, finalize_run,
}

abbrev pub is_build_of : JobId → BuildTask → Bool
is_build_of id t = t.job.id == id

abbrev pub is_run_of : JobId → RunTask → Bool
is_run_of id t = t.job.id == id

-- A build task moves on, with what its step did to the store.
unfoldable pub set_phase : JobId → Database × BuildPhase → Daemon → Daemon
set_phase id (db, phase) d = record d {
  db = db;
  builds = update_where (is_build_of id) (λ t. record t { phase = phase }) d.builds;
}

abbrev pub on_lookup : Disk → ℕ → BuildTask → BuildPhase → Daemon → Daemon
on_lookup disk now_ms t starting d = set_phase t.job.id (look_up disk now_ms t.job d.db) d
on_lookup disk now_ms t _ d = d

abbrev pub on_cached : Config → BuildTask → BuildPhase → Daemon → Daemon
on_cached cfg t (cached elf_path) d =
    set_phase t.job.id (end_build (advance cfg t.job elf_path d.db)) d
on_cached cfg t _ d = d

abbrev pub on_built :
    Config → Disk → Option String → ℕ → BuildOutcome → BuildTask → BuildPhase → Daemon → Daemon
on_built cfg disk copied now_ms outcome t working d =
    set_phase t.job.id (end_build (build_done cfg disk copied now_ms outcome t.job d.db)) d
on_built cfg disk copied now_ms outcome t _ d = d

-- `catch_unwind` round `build_inner`.
abbrev pub on_panic : String → BuildTask → BuildPhase → Daemon → Daemon
on_panic message t (ended o) d = d
on_panic message t (released o) d = d
on_panic message t _ d =
    set_phase t.job.id
      (d.db, ended (terminal (JobOutcome.failed (infra_err "build_dispatch" message)))) d

-- The slot goes back, and the kill switch is dropped.
abbrev pub on_release : BuildTask → BuildPhase → Daemon → Daemon
on_release t (ended o) d = record d {
  builds = update_where (is_build_of t.job.id) (λ u. record u { phase = released o }) d.builds;
  free_slots = d.free_slots ++ t.slot ∷ [];
  build_cancel = unregister t.job.id d.build_cancel;
}
on_release t _ d = d

abbrev pub on_finish : ℕ → BuildTask → BuildPhase → Daemon → Daemon
on_finish now_ms t (released o) d = record d {
  db = finalize_terminal t.job.id o now_ms d.db;
  builds = delete_where (is_build_of t.job.id) d.builds;
}
on_finish now_ms t _ d = d

abbrev pub with_build : JobId → Daemon → (BuildTask → Daemon) → Daemon
with_build id d f = elim (find_where (is_build_of id) d.builds) [ none ↦ d | some t ↦ f t ]

abbrev pub with_run : JobId → Daemon → (RunTask → Daemon) → Daemon
with_run id d f = elim (find_where (is_run_of id) d.runs) [ none ↦ d | some t ↦ f t ]

abbrev pub on_run_end : Config → JobOutcome → Bool → ℕ → RunTask → Daemon → Daemon
on_run_end cfg outcome clean now_ms t d = record d {
  db = finalize_run cfg t outcome clean now_ms d.db;
  runs = delete_where (is_run_of t.job.id) d.runs;
  cancellation = unregister t.job.id d.cancellation;
}

abbrev pub inserted : Database × Result (Unit {0}) → Database × Bool
inserted (db, ok _) = (db, true)
inserted (db, err e) = (db, false)
inserted (db, panicked why) = (db, false)

abbrev pub seed_found : Result (Option BoardRow) → BoardSpec → ℕ → Database → Database × Bool
seed_found (ok none) spec now_ms db = inserted (Board.insert spec now_ms db)
seed_found (ok (some row)) spec now_ms db = (db, true)
seed_found (err e) spec now_ms db = (db, false)
seed_found (panicked why) spec now_ms db = (db, false)

abbrev pub seed_canonical : Parsed ProbeSelector → BoardSpec → ℕ → Database → Database × Bool
seed_canonical (inl fault) spec now_ms db = (db, false)
seed_canonical (inr selector) spec now_ms db =
    seed_found (Board.find spec.id db) (record spec { probe_selector = selector }) now_ms db

-- The loop of `load_inventory`: boards of `boards.toml` that are not known yet are inserted. `false` is
-- an error, which ends the start.
unfoldable pub seed_boards : List BoardSpec → ℕ → Database → Database × Bool
unfolding Board.insert Board.find canonicalize
seed_boards [] now_ms db = (db, true)
seed_boards (spec ∷ specs) now_ms db =
    let (db', fine) = seed_canonical (canonicalize spec.probe_selector) spec now_ms db in
    elim fine [ false ↦ (db', false) | true ↦ seed_boards specs now_ms db' ]

abbrev pub inventory_of : Result (List BoardRow) → Option (List BoardSpec)
inventory_of (ok rows) = some (map (λ (r : BoardRow). r.spec) rows)
inventory_of (err e) = none
inventory_of (panicked why) = none

abbrev pub listed_if : Database × Bool → Database × Option (List BoardSpec)
listed_if (db, false) = (db, none)
listed_if (db, true) = (db, inventory_of (Board.list_all db))

unfoldable pub load_inventory : List BoardSpec → ℕ → Database → Database × Option (List BoardSpec)
unfolding seed_boards Board.list_all
load_inventory seeds now_ms db = listed_if (seed_boards seeds now_ms db)

abbrev pub after_sweep :
    List BoardSpec → ℕ → Database × Result ℕ → Database × Option (List BoardSpec)
after_sweep seeds now_ms (db, ok n) = load_inventory seeds now_ms db
after_sweep seeds now_ms (db, err e) = (db, none)
after_sweep seeds now_ms (db, panicked why) = (db, none)

-- The slot pool is filled with `0 .. n`, at least one.
unfoldable pub slots_below : ℕ → List ℕ
slots_below zero = []
slots_below (suc n) = slots_below n ++ n ∷ []

unfoldable pub slot_pool : Config → List ℕ
unfolding slots_below
slot_pool cfg = slots_below (max cfg.max_concurrent_builds 1)

-- What a start of the process does to the store, and the inventory that it serves, if it gets so far.
unfoldable pub restart : List BoardSpec → ℕ → Database → Database × Option (List BoardSpec)
unfolding abort_interrupted_jobs load_inventory
restart seeds now_ms db = after_sweep seeds now_ms (abort_interrupted_jobs now_ms db)

-- The state of a process that has started.
abbrev pub started : Config → Database → List BoardSpec → Daemon
started cfg db inventory = record {
  db = db;
  inventory = inventory;
  draining = false;
  free_slots = slot_pool cfg;
  builds = [];
  runs = [];
  cancellation = [];
  build_cancel = [];
}

pub data Event : Type 0 where
  submits : EnqueueRequest → ℕ → Event
  build_looks_up : JobId → Disk → ℕ → Event
  build_uses_cache : JobId → Event
  build_returns : JobId → Disk → Option String → ℕ → BuildOutcome → Event
  build_panics : JobId → String → Event
  build_releases : JobId → Event
  build_finishes : JobId → ℕ → Event
  run_returns : JobId → JobOutcome → Bool → ℕ → Event
  cancels : JobId → ℕ → Event
  adds_board : BoardSpec → ℕ → Event
  quarantines_board : String → String → Event
  unquarantines_board : String → Event
  deletes_board : String → Event
  purges : Bool → Event
  drains : Event

-- What one of them does.
unfoldable pub handle : Config → Event → Daemon → Daemon
unfolding post_job set_phase finalize_terminal finalize_run cancel_job add_board quarantine_board
    unquarantine_board delete_board purge
handle cfg (submits req now_ms) d = (post_job req now_ms d).0
handle cfg (build_looks_up id disk now_ms) d =
    with_build id d (λ t. on_lookup disk now_ms t t.phase d)
handle cfg (build_uses_cache id) d = with_build id d (λ t. on_cached cfg t t.phase d)
handle cfg (build_returns id disk copied now_ms outcome) d =
    with_build id d (λ t. on_built cfg disk copied now_ms outcome t t.phase d)
handle cfg (build_panics id message) d = with_build id d (λ t. on_panic message t t.phase d)
handle cfg (build_releases id) d = with_build id d (λ t. on_release t t.phase d)
handle cfg (build_finishes id now_ms) d = with_build id d (λ t. on_finish now_ms t t.phase d)
handle cfg (run_returns id outcome clean now_ms) d =
    with_run id d (λ t. on_run_end cfg outcome clean now_ms t d)
handle cfg (cancels id now_ms) d = (cancel_job id now_ms d).0
handle cfg (adds_board spec now_ms) d = (add_board spec now_ms d).0
handle cfg (quarantines_board id reason) d = (quarantine_board id reason d).0
handle cfg (unquarantines_board id) d = (unquarantine_board id d).0
handle cfg (deletes_board id) d = (delete_board id d).0
handle cfg (purges boards) d = (purge boards d).0
handle cfg drains d = record d { draining = true }

-- The daemon with what its dispatch thread has picked and not claimed yet. A process whose start has
-- failed is not up, and leaves its store to the next one.
pub record System : Type 0 where
  pub daemon : Daemon
  pub picked : Option Claim
  pub up : Bool

pub data Step : Type 0 where
  happens : Event → Step
  picks_run : ℕ → Step
  picks_build : ℕ → Step
  claims : Step
  restarts : List BoardSpec → ℕ → Step

-- The dispatch thread claims what it has picked before it picks again. It looks at the drain once
-- for both stages, so a pick can still come after the drain has begun.
abbrev pub pick_run : Config → ℕ → Option Claim → Daemon → System
pick_run cfg now_ms none d = record { daemon = d; picked = choose_run cfg now_ms d; up = true }
pick_run cfg now_ms (some c) d = record { daemon = d; picked = some c; up = true }

abbrev pub pick_build : Config → ℕ → Option Claim → Daemon → System
pick_build cfg now_ms none d = record {
  daemon = (choose_build cfg now_ms d).0;
  picked = (choose_build cfg now_ms d).1;
  up = true;
}
pick_build cfg now_ms (some c) d = record { daemon = d; picked = some c; up = true }

abbrev pub booted : Config → Database × Option (List BoardSpec) → System
booted cfg (db, some inventory) = record {
  daemon = started cfg db inventory;
  picked = none;
  up = true;
}
booted cfg (db, none) = record { daemon = started cfg db []; picked = none; up = false }

unfoldable pub step : Config → Step → System → System
unfolding handle choose_run choose_build claim restart slot_pool
step cfg (happens e) s = if s.up then record s { daemon = handle cfg e s.daemon } else s
step cfg (picks_run now_ms) s = if s.up then pick_run cfg now_ms s.picked s.daemon else s
step cfg (picks_build now_ms) s = if s.up then pick_build cfg now_ms s.picked s.daemon else s
step cfg claims s =
    if s.up then record s { daemon = (claim_if s.picked s.daemon).0; picked = none } else s
step cfg (restarts seeds now_ms) s = booted cfg (restart seeds now_ms s.daemon.db)

unfoldable pub run : Config → List Step → System → System
unfolding step
run cfg [] s = s
run cfg (e ∷ es) s = run cfg es (step cfg e s)

-- A first start, over an empty store.
abbrev pub start : Config → List BoardSpec → ℕ → System
start cfg seeds now_ms = booted cfg (restart seeds now_ms empty)
