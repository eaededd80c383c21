-- ===== src/Daemon/History.antt =====
-- In every history of the daemon the `job` table Stays valid, from an empty store or a valid one.
use paavo.Prelude.{
  ℕ, ◌≡◌, refl, Bool, true, false, sym, subst, String, Option, none, some, List, [], ◌∷◌,
  find_where, if◌then◌else◌,
}
use paavo.Proto.Board.{BoardSpec}
use paavo.Db.Store.{Database, empty}
use paavo.Db.Job.Invariant.{IsValid, empty-IsValid}
use paavo.Core.BuildCache.{Disk}
use paavo.Daemon.State.{
  Config, Daemon, BuildTask, RunTask, BuildPhase, starting, cached, working, ended, released,
}
use paavo.Daemon.Dispatch.{BuildOutcome}
use paavo.Daemon.Steps.{
  Event, submits, build_looks_up, build_uses_cache, build_returns, build_panics, build_releases,
  build_finishes, run_returns, cancels, adds_board, quarantines_board, unquarantines_board,
  deletes_board, purges, drains, handle, System, Step, happens, picks_run, picks_build, claims,
  restarts, pick_run, pick_build, step, run, start, booted, restart, set_phase, is_build_of,
  is_run_of, on_lookup, on_cached, on_built, on_panic, on_release, on_finish,
}
use paavo.Daemon.Keeps.{
  advance_stable, look_up_stable, build_done_stable, finalize_terminal_stable, finalize_run_stable,
  restart-jobs, booted-db, booted-picked,
}
use paavo.Daemon.Requests.{
  post_job_stable, cancel_job_stable, add_board-jobs, quarantine_board-jobs,
  unquarantine_board-jobs, delete_board-jobs, purge_stable,
}
use paavo.Daemon.Claims.{
  IsSafe, IsSafe-IsStable, IsSafe-wipe, choose_run-ClaimHolds, choose_build-IsSafe,
  claim_if-IsValid,
}
use paavo.Db.Store.{JobRow}
use paavo.Db.Job.Stable.{IsStable}
use paavo.Db.Job.Ends.{abort_interrupted_jobs-IsValid}
use paavo.Daemon.Dispatch.{Claim}

module _ (P : List JobRow → Type 0) (stable : IsStable P) (cfg : Config) (d : Daemon)
    (v : P d.db.jobs) where
  on_build :
      (f : BuildTask → Daemon) (o : Option BuildTask)
      → ((t : BuildTask) → P (f t).db.jobs)
      → P (elim o as (λ _. Daemon) [ none ↦ d | some t ↦ f t ]).db.jobs
  on_build f none keep = v
  on_build f (some t) keep = keep t

  on_run :
      (f : RunTask → Daemon) (o : Option RunTask)
      → ((t : RunTask) → P (f t).db.jobs)
      → P (elim o as (λ _. Daemon) [ none ↦ d | some t ↦ f t ]).db.jobs
  on_run f none keep = v
  on_run f (some t) keep = keep t

  on_lookup_stable :
      (disk : Disk) (now_ms : ℕ) (t : BuildTask) (p : BuildPhase)
      → P (on_lookup disk now_ms t p d).db.jobs
  unfolding set_phase
  on_lookup_stable disk now_ms t starting = look_up_stable P stable d.db v disk now_ms t.job
  on_lookup_stable disk now_ms t (cached e) = v
  on_lookup_stable disk now_ms t working = v
  on_lookup_stable disk now_ms t (ended o) = v
  on_lookup_stable disk now_ms t (released o) = v

  on_cached_stable : (t : BuildTask) (p : BuildPhase) → P (on_cached cfg t p d).db.jobs
  unfolding set_phase
  on_cached_stable t starting = v
  on_cached_stable t (cached e) = advance_stable P stable d.db v cfg t.job e
  on_cached_stable t working = v
  on_cached_stable t (ended o) = v
  on_cached_stable t (released o) = v

  on_built_stable :
      (disk : Disk) (copied : Option String) (now_ms : ℕ) (o : BuildOutcome) (t : BuildTask)
      (p : BuildPhase)
      → P (on_built cfg disk copied now_ms o t p d).db.jobs
  unfolding set_phase
  on_built_stable disk copied now_ms o t starting = v
  on_built_stable disk copied now_ms o t (cached e) = v
  on_built_stable disk copied now_ms o t working =
      build_done_stable P stable d.db v cfg disk copied now_ms o t.job
  on_built_stable disk copied now_ms o t (ended e) = v
  on_built_stable disk copied now_ms o t (released e) = v

  on_panic_stable :
      (message : String) (t : BuildTask) (p : BuildPhase) → P (on_panic message t p d).db.jobs
  unfolding set_phase
  on_panic_stable message t starting = v
  on_panic_stable message t (cached e) = v
  on_panic_stable message t working = v
  on_panic_stable message t (ended o) = v
  on_panic_stable message t (released o) = v

  on_release_stable : (t : BuildTask) (p : BuildPhase) → P (on_release t p d).db.jobs
  on_release_stable t starting = v
  on_release_stable t (cached e) = v
  on_release_stable t working = v
  on_release_stable t (ended o) = v
  on_release_stable t (released o) = v

  on_finish_stable :
      (now_ms : ℕ) (t : BuildTask) (p : BuildPhase) → P (on_finish now_ms t p d).db.jobs
  on_finish_stable now_ms t starting = v
  on_finish_stable now_ms t (cached e) = v
  on_finish_stable now_ms t working = v
  on_finish_stable now_ms t (ended o) = v
  on_finish_stable now_ms t (released o) =
      finalize_terminal_stable P stable d.db v t.job.id o now_ms

abbrev pub is_purge : Event → Bool
is_purge (purges boards) = true
is_purge _ = false

-- Whatever happens, a stable property holds after it; after a purge it has to hold of no jobs.
pub handle_stable :
    (P : List JobRow → Type 0) (stable : IsStable P) (cfg : Config) (e : Event) (d : Daemon)
    → (is_purge e ≡ true → P [])
    → P d.db.jobs
    → P (handle cfg e d).db.jobs
unfolding handle
handle_stable P stable cfg (submits req now_ms) d wipe v = post_job_stable P stable d v req now_ms
handle_stable P stable cfg (build_looks_up id disk now_ms) d wipe v =
    on_build P stable cfg d v _ (find_where (is_build_of id) d.builds)
      λ t. on_lookup_stable P stable cfg d v disk now_ms t t.phase
handle_stable P stable cfg (build_uses_cache id) d wipe v =
    on_build P stable cfg d v _ (find_where (is_build_of id) d.builds)
      λ t. on_cached_stable P stable cfg d v t t.phase
handle_stable P stable cfg (build_returns id disk copied now_ms o) d wipe v =
    on_build P stable cfg d v _ (find_where (is_build_of id) d.builds)
      λ t. on_built_stable P stable cfg d v disk copied now_ms o t t.phase
handle_stable P stable cfg (build_panics id message) d wipe v =
    on_build P stable cfg d v _ (find_where (is_build_of id) d.builds)
      λ t. on_panic_stable P stable cfg d v message t t.phase
handle_stable P stable cfg (build_releases id) d wipe v =
    on_build P stable cfg d v _ (find_where (is_build_of id) d.builds)
      λ t. on_release_stable P stable cfg d v t t.phase
handle_stable P stable cfg (build_finishes id now_ms) d wipe v =
    on_build P stable cfg d v _ (find_where (is_build_of id) d.builds)
      λ t. on_finish_stable P stable cfg d v now_ms t t.phase
handle_stable P stable cfg (run_returns id o clean now_ms) d wipe v =
    on_run P stable cfg d v _ (find_where (is_run_of id) d.runs)
      λ t. finalize_run_stable P stable d.db v cfg t o clean now_ms
handle_stable P stable cfg (cancels id now_ms) d wipe v = cancel_job_stable P stable d v id now_ms
handle_stable P stable cfg (adds_board spec now_ms) d wipe v =
    subst P (sym (add_board-jobs P stable d v spec now_ms)) v
handle_stable P stable cfg (quarantines_board id reason) d wipe v =
    subst P (sym (quarantine_board-jobs P stable d v id reason)) v
handle_stable P stable cfg (unquarantines_board id) d wipe v =
    subst P (sym (unquarantine_board-jobs P stable d v id)) v
handle_stable P stable cfg (deletes_board id) d wipe v =
    subst P (sym (delete_board-jobs P stable d v id)) v
handle_stable P stable cfg (purges boards) d wipe v = purge_stable P stable d v boards (wipe refl)
handle_stable P stable cfg drains d wipe v = v

restart-IsSafe :
    (cfg : Config) (seeds : List BoardSpec) (now_ms : ℕ) (db : Database)
    → IsValid db.jobs
    → IsSafe
        (booted cfg (restart seeds now_ms db)).picked
        (booted cfg (restart seeds now_ms db)).daemon.db.jobs
restart-IsSafe cfg seeds now_ms db v =
    let r = restart seeds now_ms db in
    subst (λ c. IsSafe c (booted cfg r).daemon.db.jobs) (sym (booted-picked cfg r))
      (
        subst (λ (s : Database). IsValid s.jobs) (sym (booted-db cfg r))
            (subst IsValid (sym (restart-jobs seeds now_ms db))
              (abort_interrupted_jobs-IsValid now_ms db v)),
        tt,
      )

-- A process that is not up does nothing.
pub if_up : (P : System → Type 0) (b : Bool) (t s : System) → P t → P s → P (if b then t else s)
if_up P true t s p q = p
if_up P false t s p q = q

pick_run-IsSafe :
    (cfg : Config) (now_ms : ℕ) (c : Option Claim) (d : Daemon)
    → IsSafe c d.db.jobs
    → IsSafe (pick_run cfg now_ms c d).picked (pick_run cfg now_ms c d).daemon.db.jobs
pick_run-IsSafe cfg now_ms none d v = (v.0, choose_run-ClaimHolds cfg now_ms d)
pick_run-IsSafe cfg now_ms (some c) d v = v

pick_build-IsSafe :
    (cfg : Config) (now_ms : ℕ) (c : Option Claim) (d : Daemon)
    → IsSafe c d.db.jobs
    → IsSafe (pick_build cfg now_ms c d).picked (pick_build cfg now_ms c d).daemon.db.jobs
pick_build-IsSafe cfg now_ms none d v = choose_build-IsSafe cfg now_ms d v.0
pick_build-IsSafe cfg now_ms (some c) d v = v

abbrev IsSafeSystem : System → Type 0
IsSafeSystem s = IsSafe s.picked s.daemon.db.jobs

pub step-IsSafe :
    (cfg : Config) (e : Step) (s : System)
    → IsSafe s.picked s.daemon.db.jobs
    → IsSafe (step cfg e s).picked (step cfg e s).daemon.db.jobs
unfolding step
step-IsSafe cfg (happens e) s v =
    if_up IsSafeSystem s.up _ s
      (handle_stable (IsSafe s.picked) (IsSafe-IsStable s.picked) cfg e s.daemon
        (λ _. IsSafe-wipe s.picked s.daemon.db.jobs v) v)
      v
step-IsSafe cfg (picks_run now_ms) s v =
    if_up IsSafeSystem s.up _ s (pick_run-IsSafe cfg now_ms s.picked s.daemon v) v
step-IsSafe cfg (picks_build now_ms) s v =
    if_up IsSafeSystem s.up _ s (pick_build-IsSafe cfg now_ms s.picked s.daemon v) v
step-IsSafe cfg claims s v =
    if_up IsSafeSystem s.up _ s (claim_if-IsValid s.picked s.daemon v, tt) v
step-IsSafe cfg (restarts seeds now_ms) s v = restart-IsSafe cfg seeds now_ms s.daemon.db v.0

pub run-IsSafe :
    (cfg : Config) (steps : List Step) (s : System)
    → IsSafe s.picked s.daemon.db.jobs
    → IsSafe (run cfg steps s).picked (run cfg steps s).daemon.db.jobs
unfolding run
run-IsSafe cfg [] s v = v
run-IsSafe cfg (e ∷ steps) s v = run-IsSafe cfg steps (step cfg e s) (step-IsSafe cfg e s v)

-- From an empty store on, in every history of requests, picks, claims, builds, runs and restarts,
-- with anything between a pick and its claim, the job table is valid: ids distinct, no board runs
-- two jobs, no tar is built twice at a time, and the state, the outcome and the other columns of
-- each job agree.
pub history-IsValid :
    (cfg : Config) (seeds : List BoardSpec) (now_ms : ℕ) (steps : List Step)
    → IsValid (run cfg steps (start cfg seeds now_ms)).daemon.db.jobs
history-IsValid cfg seeds now_ms steps =
    (run-IsSafe cfg steps (start cfg seeds now_ms)
      (restart-IsSafe cfg seeds now_ms empty empty-IsValid)).0
