-- ===== src/Daemon/Outcomes.antt =====
-- A job that has ended Stays as it is, whatever happens later, until a purge.
use paavo.Prelude.{
  ℕ, ◌≤◌, ◌==◌, ltb, ◌≡◌, refl, sym, subst, Bool, true, false, ◌&&◌, String, Option, none, some,
  List, [], ◌∷◌, Memᴰ, arith, All, Bool-cases, inl, inr, count_where, mem-update_where_kept,
  mem-append_left,
}
use paavo.Proto.Job.{
  JobId, JobState, submitted, building, awaiting_board, running, is_terminal, state_eq,
}
use paavo.Proto.Board.{BoardSpec}
use paavo.Db.Store.{Database, JobRow, Result, ok, err, panicked}
use paavo.Db.Board.{has_board_id}
use paavo.Db.Job.{has_id, in_state}
use paavo.Db.Job.Moves.{
  NewJob, OutcomeRecord, new_row, insert, is_at, move, move_onto, can_finalize, finalized, is_open,
  finalize, transition_submitted_to_building, transition_building_to_awaiting_board,
  transition_awaiting_to_running,
}
use paavo.Db.Job.Stable.{IsStable}
use paavo.Core.Scheduler.{ScheduledJob}
use paavo.Daemon.State.{Config, Daemon}
use paavo.Daemon.Dispatch.{
  Claim, run_claim, build_claim, choose_build, build_choice, run_claimed, build_claimed, claim,
  claim_if,
}
use paavo.Daemon.Steps.{
  System, Step, happens, picks_run, picks_build, claims, restarts, pick_run, pick_build, step, run,
  restart,
}
use paavo.Daemon.Keeps.{restart-jobs, booted-db}
use paavo.Db.Job.Spared.{abort_interrupted_jobs-mem}
use paavo.Daemon.Steps.{booted}
use paavo.Daemon.History.{if_up}
use paavo.Daemon.Claims.{IsSafe, touch_last_used-jobs}
use paavo.Daemon.History.{is_purge, handle_stable, step-IsSafe}

module _ (row : JobRow) (over : is_terminal row.state ≡ true) where
  -- In none of the four states that statements move jobs out of.
  settled :
      (is_open row.state ≡ false)
      × (in_state submitted row ≡ false)
      × (in_state building row ≡ false)
      × (in_state awaiting_board row ≡ false)
      × (in_state running row ≡ false)
  unfolding is_terminal
  settled = of_state row.state over
    where
      of_state :
          (s : JobState)
          → is_terminal s ≡ true
          → (is_open s ≡ false)
            × (state_eq s submitted ≡ false)
            × (state_eq s building ≡ false)
            × (state_eq s awaiting_board ≡ false)
            × (state_eq s running ≡ false)
      of_state s h = ground arith

  move-mem :
      (id : JobId) (from : JobState) (expected : String) (set : JobRow → JobRow) (db : Database)
      → in_state from row ≡ false
      → Memᴰ row db.jobs
      → Memᴰ row (move id from expected set db).0.jobs
  unfolding move
  move-mem id from expected set db out m =
      elim (Bool-cases (count_where (is_at id from) db.jobs == 0)) [
        | inl missing ↦ rw missing m
        | inr present ↦
            rw present (mem-update_where_kept (is_at id from) set db.jobs m (ground (arith, out)))
      ]

  transition_awaiting_to_running-mem :
      (id : JobId) (board_id : String) (db : Database)
      → Memᴰ row db.jobs
      → Memᴰ row (transition_awaiting_to_running id board_id db).0.jobs
  unfolding transition_awaiting_to_running move_onto
  transition_awaiting_to_running-mem id board_id db m =
      elim (Bool-cases (
        ltb 0 (count_where (is_at id awaiting_board) db.jobs)
        && count_where (has_board_id board_id) db.boards == 0)) [
          | inl no_board ↦ rw no_board m
          | inr present ↦ rw present (move-mem id awaiting_board _ _ db settled.3 m)
        ]

  finalize-mem :
      (id : JobId) (rec : OutcomeRecord) (db : Database)
      → Memᴰ row db.jobs
      → Memᴰ row (finalize id rec db).0.jobs
  unfolding finalize
  finalize-mem id rec db m = elim (Bool-cases (is_terminal rec.state)) [
    | inr going ↦ rw going m
    | inl terminal ↦ rw terminal (elim (Bool-cases (count_where (can_finalize id) db.jobs == 0)) [
      | inl missing ↦ rw missing m
      | inr present ↦ rw present (
          mem-update_where_kept (can_finalize id) (finalized rec) db.jobs m
            (ground (arith, settled.0)))
    ])
  ]

  insert-mem :
      (j : NewJob) (now_ms : ℕ) (db : Database)
      → Memᴰ row db.jobs
      → Memᴰ row (insert j now_ms db).0.jobs
  unfolding insert
  insert-mem j now_ms db m = elim (Bool-cases (ltb 0 (count_where (has_id j.id) db.jobs))) [
    | inl taken ↦ rw taken m
    | inr free ↦ rw free (mem-append_left db.jobs (new_row j now_ms ∷ []) m)
  ]

  mem-IsStable : IsStable (Memᴰ row)
  unfolding transition_building_to_awaiting_board
  mem-IsStable = record {
    after_insert = insert-mem;
    after_advance = λ id elf_path db m. move-mem id building _ _ db settled.2 m;
    after_finalize = λ id rec db agrees m. finalize-mem id rec db m;
  }

  run_claimed-mem :
      (s : ScheduledJob) (now_ms : ℕ) (d : Daemon) (r : Database × Result (Unit {0}))
      → Memᴰ row r.0.jobs
      → Memᴰ row (run_claimed s now_ms d r).0.db.jobs
  run_claimed-mem s now_ms d (db, ok u) m =
      subst (Memᴰ row) (sym (touch_last_used-jobs s.board.spec.id now_ms db)) m
  run_claimed-mem s now_ms d (db, err e) m = m
  run_claimed-mem s now_ms d (db, panicked why) m = m

  build_claimed-mem :
      (j : JobRow) (slot : ℕ) (d : Daemon) (r : Database × Result (Unit {0}))
      → Memᴰ row r.0.jobs
      → Memᴰ row (build_claimed j slot d r).0.db.jobs
  build_claimed-mem j slot d (db, ok u) m = m
  build_claimed-mem j slot d (db, err e) m = m
  build_claimed-mem j slot d (db, panicked why) m = m

  claim_if-mem :
      (c : Option Claim) (d : Daemon) → Memᴰ row d.db.jobs → Memᴰ row (claim_if c d).0.db.jobs
  unfolding claim transition_submitted_to_building
  claim_if-mem none d m = m
  claim_if-mem (some (run_claim s now_ms)) d m =
      run_claimed-mem s now_ms d _
        (transition_awaiting_to_running-mem s.job.id s.board.spec.id d.db m)
  claim_if-mem (some (build_claim j slot now_ms)) d m =
      build_claimed-mem j slot d _ (move-mem j.id submitted _ _ d.db settled.1 m)

  restart-mem :
      (cfg : Config) (seeds : List BoardSpec) (now_ms : ℕ) (db : Database)
      → ((id : JobId) → count_where (has_id id) db.jobs ≤ 1)
      → Memᴰ row db.jobs
      → Memᴰ row (booted cfg (restart seeds now_ms db)).daemon.db.jobs
  restart-mem cfg seeds now_ms db unique m =
      subst (λ (s : Database). Memᴰ row s.jobs) (sym (booted-db cfg (restart seeds now_ms db)))
        (subst (Memᴰ row) (sym (restart-jobs seeds now_ms db))
          (abort_interrupted_jobs-mem row now_ms db unique (rw (settled.2, settled.4) refl) m))

  choose_build-mem :
      (now_ms : ℕ) (d : Daemon) (slots : List ℕ) (r : Result (Option JobRow))
      → Memᴰ row d.db.jobs
      → Memᴰ row (build_choice now_ms d slots r).0.db.jobs
  choose_build-mem now_ms d slots (ok none) m = m
  choose_build-mem now_ms d [] (ok (some j)) m = m
  choose_build-mem now_ms d (slot ∷ rest) (ok (some j)) m = m
  choose_build-mem now_ms d slots (err e) m = m
  choose_build-mem now_ms d slots (panicked why) m = m

  pick_run-mem :
      (cfg : Config) (now_ms : ℕ) (c : Option Claim) (d : Daemon)
      → Memᴰ row d.db.jobs
      → Memᴰ row (pick_run cfg now_ms c d).daemon.db.jobs
  pick_run-mem cfg now_ms none d m = m
  pick_run-mem cfg now_ms (some c) d m = m

  pick_build-mem :
      (cfg : Config) (now_ms : ℕ) (c : Option Claim) (d : Daemon)
      → Memᴰ row d.db.jobs
      → Memᴰ row (pick_build cfg now_ms c d).daemon.db.jobs
  unfolding choose_build
  pick_build-mem cfg now_ms none d m = choose_build-mem now_ms d d.free_slots _ m
  pick_build-mem cfg now_ms (some c) d m = m

abbrev pub is_purge_step : Step → Bool
is_purge_step (happens e) = is_purge e
is_purge_step _ = false

abbrev Holds : JobRow → System → Type 0
Holds row s = Memᴰ row s.daemon.db.jobs

step-mem :
    (cfg : Config) (e : Step) (s : System) (row : JobRow)
    → is_terminal row.state ≡ true
    → IsSafe s.picked s.daemon.db.jobs
    → is_purge_step e ≡ false
    → Memᴰ row s.daemon.db.jobs
    → Memᴰ row (step cfg e s).daemon.db.jobs
unfolding step
step-mem cfg (happens e) s row over v keeps m =
    if_up (Holds row) s.up _ s
      (handle_stable (Memᴰ row) (mem-IsStable row over) cfg e s.daemon
        (λ purged. cc (keeps, purged)) m)
      m
step-mem cfg (picks_run now_ms) s row over v keeps m =
    if_up (Holds row) s.up _ s (pick_run-mem row over cfg now_ms s.picked s.daemon m) m
step-mem cfg (picks_build now_ms) s row over v keeps m =
    if_up (Holds row) s.up _ s (pick_build-mem row over cfg now_ms s.picked s.daemon m) m
step-mem cfg claims s row over v keeps m =
    if_up (Holds row) s.up _ s (claim_if-mem row over s.picked s.daemon m) m
step-mem cfg (restarts seeds now_ms) s row over v keeps m =
    restart-mem row over cfg seeds now_ms s.daemon.db v.0.unique m

-- From a state whose job table is valid and whose pick may still be claimed, a job that has ended
-- Stays in the table with its outcome and every other column as they are, through all further
-- requests, picks, claims, builds, runs and restarts, as long as none of them is a purge.
pub run-mem :
    (cfg : Config) (steps : List Step) (s : System) (row : JobRow)
    → is_terminal row.state ≡ true
    → IsSafe s.picked s.daemon.db.jobs
    → All (λ e. is_purge_step e ≡ false) steps
    → Memᴰ row s.daemon.db.jobs
    → Memᴰ row (run cfg steps s).daemon.db.jobs
unfolding run
run-mem cfg [] s row over v keeps m = m
run-mem cfg (e ∷ steps) s row over v keeps m =
    run-mem cfg steps (step cfg e s) row over (step-IsSafe cfg e s v) keeps.1
      (step-mem cfg e s row over v keeps.0 m)
