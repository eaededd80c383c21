-- ===== src/Daemon/Loops.antt =====
-- The loops of crates/paavod/src/dispatch.rs: `run_stage` and `build_stage`. The lock is released between
-- a pick and its claim, and between two rounds, so requests and the tasks of other jobs come between.
pub mod Arrivals
pub mod Ends
pub mod Requests
pub mod Slots
pub mod Fills
use paavo.Prelude.{ℕ, zero, suc, Bool, true, false, Option, none, some, List, [], ◌∷◌}
use paavo.Daemon.State.{Config, Daemon}
use paavo.Daemon.Dispatch.{choose_run, choose_build, claim, claim_if}
use paavo.Daemon.Steps.{Event, handle}

unfoldable pub handle_all : Config → List Event → Daemon → Daemon
unfolding handle
handle_all cfg [] d = d
handle_all cfg (e ∷ es) d = handle_all cfg es (handle cfg e d)

-- What happens elsewhere in each round: before the claim, and after it.
pub record Others : Type 0 where
  pub before_claim : ℕ → List Event
  pub after_claim : ℕ → List Event

-- A round, where `false` is the `break` of the loop.
unfoldable pub run_round : Config → ℕ → List Event → Daemon → Daemon × Bool
unfolding choose_run claim handle_all
run_round cfg now_ms before d = claim_if (choose_run cfg now_ms d) (handle_all cfg before d)

-- The loop, on fuel, which numbers the rounds; `clock` gives the time of each.
unfoldable pub run_stage : Config → (ℕ → ℕ) → Others → ℕ → Daemon → Option Daemon
unfolding run_round handle_all
run_stage cfg clock others zero d = none
run_stage cfg clock others (suc fuel) d =
    let (d', more) = run_round cfg (clock fuel) (others.before_claim fuel) d in
    elim more [
      | false ↦ some d'
      | true ↦ run_stage cfg clock others fuel (handle_all cfg (others.after_claim fuel) d')
    ]

-- The same of `build_stage`, in which a pick takes a slot at once.
unfoldable pub build_round : Config → ℕ → List Event → Daemon → Daemon × Bool
unfolding choose_build claim handle_all
build_round cfg now_ms before d =
    claim_if (choose_build cfg now_ms d).1 (handle_all cfg before (choose_build cfg now_ms d).0)

unfoldable pub build_stage : Config → (ℕ → ℕ) → Others → ℕ → Daemon → Option Daemon
unfolding build_round handle_all
build_stage cfg clock others zero d = none
build_stage cfg clock others (suc fuel) d =
    let (d', more) = build_round cfg (clock fuel) (others.before_claim fuel) d in
    elim more [
      | false ↦ some d'
      | true ↦ build_stage cfg clock others fuel (handle_all cfg (others.after_claim fuel) d')
    ]
