-- ===== src/Daemon/Dispatch.antt =====
-- crates/paavod/src/dispatch.rs: the two stages, and the tasks that they spawn. An action here is
-- what happens between taking and releasing the lock of the store, so a history of the daemon is a
-- sequence of actions. The broker of live logs only forwards frames and is left out.
use paavo.Prelude.{
  ℕ, Bool, true, false, String, Option, none, some, List, [], ◌∷◌, ◌++◌, if◌then◌else◌,
}
use paavo.Proto.Job.{JobId, JobOutcome, build_err, infra_err, user}
use paavo.Db.Store.{Database, JobRow, Result, ok, err, panicked}
use paavo.Db.Board.{touch_last_used}
use paavo.Db.Job.Invariant.{terminal_state_of}
use paavo.Db.Job.Moves.{
  finalize, transition_submitted_to_building, transition_building_to_awaiting_board,
  transition_awaiting_to_running,
}
use paavo.Core.Scheduler.{ScheduledJob, pick_runnable, pick_buildable}
use paavo.Core.Quarantine.{apply_outcome_to_board}
use paavo.Core.BuildCache.{Disk, CacheLookup, hit, miss, cache_lookup, cache_store}
use paavo.Daemon.Registry.{register, register_build}
use paavo.Daemon.State.{
  Config, Daemon, RunTask, BuildPhase, starting, cached, working, ended, BuildStageOutcome,
  advanced, terminal,
}

-- What the dispatch thread has picked, and not claimed yet; a build has its slot by then.
pub data Claim : Type 0 where
  run_claim : ScheduledJob → ℕ → Claim
  build_claim : JobRow → ℕ → ℕ → Claim

abbrev pub run_choice : ℕ → Result (Option ScheduledJob) → Option Claim
run_choice now_ms (ok none) = none
run_choice now_ms (ok (some s)) = some (run_claim s now_ms)
run_choice now_ms (err e) = none
run_choice now_ms (panicked why) = none

-- The first locked section of a round of `run_stage`.
unfoldable pub choose_run : Config → ℕ → Daemon → Option Claim
unfolding pick_runnable
choose_run cfg now_ms d = run_choice now_ms (pick_runnable cfg.starvation_threshold_ms now_ms d.db)

abbrev pub build_choice : ℕ → Daemon → List ℕ → Result (Option JobRow) → Daemon × Option Claim
build_choice now_ms d slots (ok none) = (d, none)
build_choice now_ms d [] (ok (some j)) = (d, none)
build_choice now_ms d (slot ∷ rest) (ok (some j)) =
    (record d { free_slots = rest }, some (build_claim j slot now_ms))
build_choice now_ms d slots (err e) = (d, none)
build_choice now_ms d slots (panicked why) = (d, none)

-- The same of `build_stage`, with the slot that it takes next.
unfoldable pub choose_build : Config → ℕ → Daemon → Daemon × Option Claim
unfolding pick_buildable
choose_build cfg now_ms d =
    build_choice now_ms d d.free_slots (pick_buildable cfg.starvation_threshold_ms now_ms d.db)

abbrev pub run_claimed : ScheduledJob → ℕ → Daemon → Database × Result (Unit {0}) → Daemon × Bool
run_claimed s now_ms d (db, ok _) = (
  record d {
    db = (touch_last_used s.board.spec.id now_ms db).0;
    runs = d.runs ++ record { job = s.job; board_id = s.board.spec.id } ∷ [];
    cancellation = register s.job.id d.cancellation;
  },
  true,
)
run_claimed s now_ms d (db, err e) = (record d { db = db }, false)
run_claimed s now_ms d (db, panicked why) = (record d { db = db }, false)

abbrev pub build_claimed : JobRow → ℕ → Daemon → Database × Result (Unit {0}) → Daemon × Bool
build_claimed j slot d (db, ok _) = (
  record d {
    db = db;
    builds = d.builds ++ record { job = j; slot = slot; phase = starting } ∷ [];
    build_cancel = register_build j.id d.build_cancel;
  },
  true,
)
build_claimed j slot d (db, err e) =
    (record d { db = db; free_slots = d.free_slots ++ slot ∷ [] }, false)
build_claimed j slot d (db, panicked why) =
    (record d { db = db; free_slots = d.free_slots ++ slot ∷ [] }, false)

-- The second locked section of a round; `false` is the `break` of the loop.
unfoldable pub claim : Claim → Daemon → Daemon × Bool
unfolding transition_awaiting_to_running transition_submitted_to_building
claim (run_claim s now_ms) d =
    run_claimed s now_ms d (transition_awaiting_to_running s.job.id s.board.spec.id d.db)
claim (build_claim j slot now_ms) d =
    build_claimed j slot d (transition_submitted_to_building j.id now_ms d.db)

abbrev pub claim_if : Option Claim → Daemon → Daemon × Bool
claim_if none d = (d, false)
claim_if (some c) d = claim c d

-- What the builder reports.
pub data BuildOutcome : Type 0 where
  built : String → BuildOutcome
  failed : String → BuildOutcome
  cancelled : BuildOutcome

abbrev infra : String → String → BuildStageOutcome
infra stage message = terminal (JobOutcome.failed (infra_err stage message))

abbrev pub advance_ended : Config → Database × Result (Unit {0}) → Database × BuildStageOutcome
advance_ended cfg (db, ok _) = (db, advanced)
advance_ended cfg (db, err e) = (db, infra "transition_awaiting_board" (cfg.error_text e))
advance_ended cfg (db, panicked why) = (db, infra "build_dispatch" why)

-- `Building → AwaitingBoard`, at the end of `build_inner`.
unfoldable pub advance : Config → JobRow → String → Database → Database × BuildStageOutcome
unfolding transition_building_to_awaiting_board
advance cfg j elf_path db =
    advance_ended cfg (transition_building_to_awaiting_board j.id elf_path db)

abbrev pub after_lookup : Database × CacheLookup → Database × BuildPhase
after_lookup (db, hit elf_path) = (db, cached elf_path)
after_lookup (db, miss) = (db, working)

abbrev pub end_build : Database × BuildStageOutcome → Database × BuildPhase
end_build (db, o) = (db, ended o)

-- The first locked section of `build_inner`.
unfoldable pub look_up : Disk → ℕ → JobRow → Database → Database × BuildPhase
unfolding cache_lookup
look_up disk now_ms j db =
    if j.skip_cache then (db, working) else after_lookup (cache_lookup disk j.tar_blake3 now_ms db)

-- The last one, after the build. `copied` is the error of `std::fs::copy`, if any.
unfoldable pub build_done :
    Config
    → Disk
    → Option String
    → ℕ
    → BuildOutcome
    → JobRow
    → Database
    → Database × BuildStageOutcome
unfolding cache_store advance
build_done cfg disk none now_ms (built elf_path) j db =
    advance cfg j (cfg.stable_elf j.tar_blake3)
      (cache_store disk j.tar_blake3 (cfg.stable_elf j.tar_blake3) now_ms db).0
build_done cfg disk (some message) now_ms (built elf_path) j db =
    (db, infra "artifact_copy" message)
build_done cfg disk copied now_ms (failed stderr) j db =
    (db, terminal (JobOutcome.failed (build_err stderr)))
build_done cfg disk copied now_ms cancelled j db = (db, terminal (JobOutcome.aborted user))

-- `finalize` of both terminal paths; an error is only logged.
unfoldable pub record_outcome : JobId → JobOutcome → ℕ → Database → Database
unfolding finalize
record_outcome id outcome now_ms db =
    (finalize id
      (record { state = terminal_state_of outcome; outcome = outcome; finished_at_ms = now_ms })
      db).0

unfoldable pub finalize_terminal : JobId → BuildStageOutcome → ℕ → Database → Database
unfolding record_outcome
finalize_terminal id advanced now_ms db = db
finalize_terminal id (terminal outcome) now_ms db = record_outcome id outcome now_ms db

-- The locked section of `finalize_run`: the job's outcome, then what it does to the board.
unfoldable pub finalize_run : Config → RunTask → JobOutcome → Bool → ℕ → Database → Database
unfolding record_outcome apply_outcome_to_board
finalize_run cfg task outcome clean now_ms db =
    (apply_outcome_to_board cfg.auto_quarantine_reason task.board_id outcome clean
      cfg.consecutive_infra_failures (record_outcome task.job.id outcome now_ms db)).0
