-- ===== src/Daemon/Loops/Ends.antt =====
-- The run stage of crates/paavod/src/dispatch.rs comes to an end, whatever happens meanwhile.
use paavo.Prelude.{
  ℕ, zero, suc, ◌<◌, ◌≡◌, refl, true, String, Option, none, some, List, arith, Bool-cases, inl, inr,
  count_where, count_where-update-drop, &&-eq_true,
}
use paavo.Proto.Job.{JobId, awaiting_board, running}
use paavo.Db.Store.{Database, JobRow, Result, ok, err, panicked}
use paavo.Db.Job.{has_id, in_state}
use paavo.Db.Job.Moves.{is_at, move, move_onto, transition_awaiting_to_running}
use paavo.Core.Scheduler.{ScheduledJob, pick_runnable}
use paavo.Daemon.State.{Config, Daemon}
use paavo.Daemon.Dispatch.{run_claimed, run_choice, choose_run, claim, claim_if}
use paavo.Daemon.Claims.{touch_last_used-jobs}
use paavo.Daemon.Steps.{Event}
use paavo.Daemon.Loops.{Others, handle_all, run_round, run_stage}
use paavo.Daemon.Loops.Arrivals.{may_wait, handle_all-AtMost}

abbrev waiting : Daemon → ℕ
waiting d = count_where may_wait d.db.jobs

-- A claim that succeeds takes a job out of the queue of the boards.
transition_awaiting_to_running-fewer :
    (id : JobId) (board_id : String) (db : Database)
    → (transition_awaiting_to_running id board_id db).1 ≡ ok tt
    → count_where may_wait (transition_awaiting_to_running id board_id db).0.jobs
      < count_where may_wait db.jobs
unfolding transition_awaiting_to_running move_onto move
transition_awaiting_to_running-fewer id board_id db h = ground (
  arith,
  count_where-update-drop may_wait (is_at id awaiting_board)
      (λ row. record row { state = running; board_id = some board_id })
      (λ row at. awaits row (&&-eq_true (has_id id row) (in_state awaiting_board row) at).1)
      (λ row at. refl) db.jobs,
)
  where
    awaits : (row : JobRow) → in_state awaiting_board row ≡ true → may_wait row ≡ true
    awaits row e = ground (arith, e)

run_claimed-fewer :
    (s : ScheduledJob) (now_ms : ℕ) (d : Daemon) (r : Database × Result (Unit {0}))
    → (r.1 ≡ ok tt → count_where may_wait r.0.jobs < waiting d)
    → (run_claimed s now_ms d r).1 ≡ true
    → waiting (run_claimed s now_ms d r).0 < waiting d
run_claimed-fewer s now_ms d (db, ok u) fewer h =
    rw (touch_last_used-jobs s.board.spec.id now_ms db) (fewer refl)
run_claimed-fewer s now_ms d (db, err e) fewer h = cc
run_claimed-fewer s now_ms d (db, panicked why) fewer h = cc

run_round-fewer :
    (cfg : Config) (now_ms : ℕ) (before : List Event) (d : Daemon)
    → (run_round cfg now_ms before d).1 ≡ true
    → waiting (run_round cfg now_ms before d).0 < waiting d
unfolding run_round choose_run claim
run_round-fewer cfg now_ms before d h = omega (
  arith,
  chosen (pick_runnable cfg.starvation_threshold_ms now_ms d.db) (handle_all cfg before d) h,
  handle_all-AtMost cfg before (waiting d) d (omega arith),
)
  where
    chosen :
        (r : Result (Option ScheduledJob)) (e : Daemon)
        → (claim_if (run_choice now_ms r) e).1 ≡ true
        → waiting (claim_if (run_choice now_ms r) e).0 < waiting e
    chosen (ok none) e k = cc
    chosen (ok (some s)) e k =
        run_claimed-fewer s now_ms e (transition_awaiting_to_running s.job.id s.board.spec.id e.db)
          (transition_awaiting_to_running-fewer s.job.id s.board.spec.id e.db) k
    chosen (err why) e k = cc
    chosen (panicked why) e k = cc

-- Whatever requests and tasks of other jobs come between a pick and its claim, and between the
-- rounds, the loop of the run stage ends within one round more than there are jobs that wait for a
-- board or are being built when it begins.
pub run_stage_ends :
    (cfg : Config) (clock : ℕ → ℕ) (others : Others) (fuel : ℕ) (d : Daemon)
    → count_where may_wait d.db.jobs < fuel
    → (after : Daemon) × (run_stage cfg clock others fuel d ≡ some after)
unfolding run_stage
run_stage_ends cfg clock others zero d h = absurd (omega arith)
run_stage_ends cfg clock others (suc fuel) d h =
    let before = others.before_claim fuel in
    let next = (run_round cfg (clock fuel) before d).0 in
    elim (Bool-cases (run_round cfg (clock fuel) before d).1) [
      | inl more ↦
          let fewer = run_round-fewer cfg (clock fuel) before d more in
          let (after, e) =
            run_stage_ends cfg clock others fuel (handle_all cfg (others.after_claim fuel) next) (
              omega (
                arith,
                h,
                fewer,
                handle_all-AtMost cfg (others.after_claim fuel) (waiting next) next (omega arith),
              )) in
          (after, rw (more, run_stage) e)
      | inr over ↦ (next, rw (over, run_stage))
    ]
