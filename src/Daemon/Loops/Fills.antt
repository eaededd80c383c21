-- ===== src/Daemon/Loops/Fills.antt =====
-- The build stage of crates/paavod/src/dispatch.rs comes to an end unless slots keep coming back.
use paavo.Prelude.{
  ℕ, zero, suc, ◌+◌, ◌<◌, ◌≡◌, refl, ap, true, Option, none, some, List, [], ◌∷◌, length, arith,
  Bool-cases, inl, inr,
}
use paavo.Db.Store.{Database, JobRow, Result, ok, err, panicked}
use paavo.Db.Job.Moves.{transition_submitted_to_building}
use paavo.Core.Scheduler.{pick_buildable}
use paavo.Daemon.State.{Config, Daemon}
use paavo.Daemon.Dispatch.{build_claimed, build_choice, choose_build, claim, claim_if}
use paavo.Daemon.Steps.{Event}
use paavo.Daemon.Loops.Requests.{slots}
use paavo.Daemon.Loops.Slots.{returned_by, returned_below, handle_all-slots}
use paavo.Daemon.Loops.{Others, handle_all, build_round, build_stage}

build_claimed-slots :
    (j : JobRow) (slot : ℕ) (d : Daemon) (r : Database × Result (Unit {0}))
    → (build_claimed j slot d r).1 ≡ true
    → slots (build_claimed j slot d r).0 ≡ slots d
build_claimed-slots j slot d (store, ok u) k = refl
build_claimed-slots j slot d (store, err e) k = cc
build_claimed-slots j slot d (store, panicked why) k = cc

build_round-slots :
    (cfg : Config) (now_ms : ℕ) (before : List Event) (d : Daemon)
    → (build_round cfg now_ms before d).1 ≡ true
    → slots (build_round cfg now_ms before d).0 < returned_by before + slots d
unfolding build_round choose_build claim
build_round-slots cfg now_ms before d h =
    chosen d.free_slots (pick_buildable cfg.starvation_threshold_ms now_ms d.db) refl h
  where
    chosen :
        (free : List ℕ) (r : Result (Option JobRow))
        → d.free_slots ≡ free
        → (claim_if
            (build_choice now_ms d free r).1
            (handle_all cfg before (build_choice now_ms d free r).0)).1
          ≡ true
        → slots
            (claim_if
              (build_choice now_ms d free r).1
              (handle_all cfg before (build_choice now_ms d free r).0)).0
          < returned_by before + slots d
    chosen free (ok none) e k = cc
    chosen [] (ok (some j)) e k = cc
    chosen (slot ∷ rest) (ok (some j)) e k =
        let then_free = handle_all cfg before (record d { free_slots = rest }) in
        omega (
          arith,
          build_claimed-slots j slot then_free
              (transition_submitted_to_building j.id now_ms then_free.db) k,
          handle_all-slots cfg before (record d { free_slots = rest }),
          ap length e,
        )
    chosen free (err why) e k = cc
    chosen free (panicked why) e k = cc

-- Whatever requests and tasks of other jobs come between a pick and its claim, and between the
-- rounds, the loop of the build stage ends within one round more than there are free slots when it
-- begins and slots that are given back in those rounds.
pub build_stage_ends :
    (cfg : Config) (clock : ℕ → ℕ) (others : Others) (fuel : ℕ) (d : Daemon)
    → returned_below fuel others + length d.free_slots < fuel
    → (after : Daemon) × (build_stage cfg clock others fuel d ≡ some after)
unfolding build_stage
build_stage_ends cfg clock others zero d h = absurd (omega arith)
build_stage_ends cfg clock others (suc fuel) d h =
    let before = others.before_claim fuel in
    let next = (build_round cfg (clock fuel) before d).0 in
    elim (Bool-cases (build_round cfg (clock fuel) before d).1) [
      | inl more ↦
          let (after, e) =
            build_stage_ends cfg clock others fuel (handle_all cfg (others.after_claim fuel) next) (
              omega (
                arith,
                h,
                build_round-slots cfg (clock fuel) before d more,
                handle_all-slots cfg (others.after_claim fuel) next,
              )) in
          (after, rw (more, build_stage) e)
      | inr over ↦ (next, rw (over, build_stage))
    ]
