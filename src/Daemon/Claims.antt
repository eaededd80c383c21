-- ===== src/Daemon/Claims.antt =====
-- The two locked sections of a round of the dispatch thread: what a pick finds still holds when it is
-- claimed, whatever has happened between the two.
use paavo.Prelude.{
  ℕ, ◌≡◌, refl, sym, subst, ap, ◌∙◌, true, String, Option, none, some, List, [], ◌∷◌, Memᴰ, inl,
  inr, arith, count_where, count_where_unique, count_where_pos, &&-eq_true,
}
use paavo.Proto.Job.{submitted}
use paavo.Db.Store.{Database, JobRow, Result, ok, err, panicked}
use paavo.Db.Board.{runs_on, touch_last_used}
use paavo.Db.Job.{has_id, in_state, builds}
use paavo.Db.Job.Moves.{is_at}
use paavo.Db.Job.Invariant.{IsValid, empty-IsValid}
use paavo.Db.Job.Keeps.{
  transition_submitted_to_building-IsValid, transition_awaiting_to_running-IsValid,
}
use paavo.Db.Job.Grows.{
  Grows, Grows-wipe, insert-Grows, transition_building_to_awaiting_board-Grows, finalize-Grows,
}
use paavo.Db.Job.Stable.{IsStable, IsValid-IsStable}
use paavo.Core.Scheduler.{ScheduledJob, promote, pick_runnable, pick_buildable}
use paavo.Core.Scheduler.Loop.{pick_runnable-IsAvailable}
use paavo.Core.Scheduler.Buildable.{pick_buildable_sound}
use paavo.Daemon.State.{Config, Daemon}
use paavo.Daemon.Dispatch.{
  Claim, run_claim, build_claim, run_choice, choose_run, build_choice, choose_build, run_claimed,
  build_claimed, claim, claim_if,
}

-- No running build would serve a job of that id; and if the job is gone, nothing is being built.
pub record BuildHolds (j : JobRow) (jobs : List JobRow) : Type 0 where
  pub unserved :
      (row : JobRow)
      → Memᴰ row jobs
      → is_at j.id submitted row ≡ true
      → count_where (builds row.tar_blake3) jobs ≡ 0
  pub gone : count_where (has_id j.id) jobs ≡ 0 → (tar : String) → count_where (builds tar) jobs ≡ 0

-- What a claim relies on.
abbrev pub ClaimHolds : Option Claim → List JobRow → Type 0
ClaimHolds none jobs = Unit
ClaimHolds (some (run_claim s now_ms)) jobs = count_where (runs_on s.board.spec.id) jobs ≡ 0
ClaimHolds (some (build_claim j slot now_ms)) jobs = BuildHolds j jobs

-- No change that starts no run and no build undoes it.
BuildHolds-grown :
    (j : JobRow) (before after : List JobRow)
    → Grows before after
    → BuildHolds j before
    → BuildHolds j after
unfolding count_where
BuildHolds-grown j before after g h = record {
  unserved = λ row m at.
      let (is_j, waits) = &&-eq_true (has_id j.id row) (in_state submitted row) at in
      elim (g.known row m waits) [
        | inl n ↦ omega (arith, h.unserved row n at, g.no_build row.tar_blake3)
        | inr new ↦
            let same : j.id ≡ row.id = ground (arith, is_j) in
            omega (
              arith,
              h.gone (subst (λ i. count_where (has_id i) before ≡ 0) (sym same) new) row.tar_blake3,
              g.no_build row.tar_blake3,
            )
      ];
  gone = λ absent tar. elim g.keeps_ids [
    | inl keep ↦ omega (arith, h.gone (omega (arith, keep j.id, absent)) tar, g.no_build tar)
    | inr empty ↦ rw empty refl
  ];
}

ClaimHolds-grown :
    (c : Option Claim) (before after : List JobRow)
    → Grows before after
    → ClaimHolds c before
    → ClaimHolds c after
ClaimHolds-grown none before after g h = tt
ClaimHolds-grown (some (run_claim s now_ms)) before after g h =
    omega (arith, h, g.no_run s.board.spec.id)
ClaimHolds-grown (some (build_claim j slot now_ms)) before after g h =
    BuildHolds-grown j before after g h

-- The table is valid, and what the dispatch thread has picked may still be claimed.
abbrev pub IsSafe : Option Claim → List JobRow → Type 0
IsSafe c jobs = IsValid jobs × ClaimHolds c jobs

pub IsSafe-IsStable : (c : Option Claim) → IsStable (IsSafe c)
IsSafe-IsStable c = record {
  after_insert = λ j now_ms db v. (
    IsValid-IsStable.after_insert j now_ms db v.0,
    ClaimHolds-grown c _ _ (insert-Grows j now_ms db) v.1,
  );
  after_advance = λ id elf_path db v. (
    IsValid-IsStable.after_advance id elf_path db v.0,
    ClaimHolds-grown c _ _ (transition_building_to_awaiting_board-Grows id elf_path db) v.1,
  );
  after_finalize = λ id rec db agrees v. (
    IsValid-IsStable.after_finalize id rec db agrees v.0,
    ClaimHolds-grown c _ _ (finalize-Grows id rec db agrees) v.1,
  );
}

pub IsSafe-wipe : (c : Option Claim) (jobs : List JobRow) → IsSafe c jobs → IsSafe c []
IsSafe-wipe c jobs v = (empty-IsValid, ClaimHolds-grown c jobs [] (Grows-wipe jobs) v.1)

promote-id : (threshold_ms now_ms : ℕ) (j : JobRow) → (promote threshold_ms now_ms j).id ≡ j.id
unfolding promote
promote-id threshold_ms now_ms j = ground arith

-- The row of a pick is the only one with its id, so no tar that it claims is being built.
pick_buildable-BuildHolds :
    (threshold_ms now_ms : ℕ) (db : Database) {p : JobRow}
    → IsValid db.jobs
    → pick_buildable threshold_ms now_ms db ≡ ok (some p)
    → BuildHolds p db.jobs
pick_buildable-BuildHolds threshold_ms now_ms db {p} v h =
    let (j, could, e) = pick_buildable_sound threshold_ms now_ms db {p = p} h in
    let same_id : p.id ≡ j.id = ap (λ (i : JobRow). i.id) e ∙ promote-id threshold_ms now_ms j in
    let is_p : has_id p.id j ≡ true = ground (arith, same_id) in
    record {
      unserved = λ row m at.
          subst (λ (i : JobRow). count_where (builds i.tar_blake3) db.jobs ≡ 0)
            (count_where_unique (has_id p.id) db.jobs (v.unique p.id) could.queued is_p m
              (&&-eq_true (has_id p.id row) (in_state submitted row) at).0)
            could.unserved;
      gone = λ absent.
          absurd (omega (arith, absent, count_where_pos (has_id p.id) db.jobs could.queued is_p));
    }

pub choose_run-ClaimHolds :
    (cfg : Config) (now_ms : ℕ) (d : Daemon) → ClaimHolds (choose_run cfg now_ms d) d.db.jobs
unfolding choose_run
choose_run-ClaimHolds cfg now_ms d =
    chosen (pick_runnable cfg.starvation_threshold_ms now_ms d.db) refl
  where
    chosen :
        (r : Result (Option ScheduledJob))
        → pick_runnable cfg.starvation_threshold_ms now_ms d.db ≡ r
        → ClaimHolds (run_choice now_ms r) d.db.jobs
    chosen (ok none) e = tt
    chosen (ok (some s)) e =
        (pick_runnable-IsAvailable cfg.starvation_threshold_ms now_ms d.db {s = s} e).unused
    chosen (err why) e = tt
    chosen (panicked why) e = tt

-- Picking a build changes no job.
pub choose_build-IsSafe :
    (cfg : Config) (now_ms : ℕ) (d : Daemon)
    → IsValid d.db.jobs
    → IsSafe (choose_build cfg now_ms d).1 (choose_build cfg now_ms d).0.db.jobs
unfolding choose_build
choose_build-IsSafe cfg now_ms d v =
    chosen d.free_slots (pick_buildable cfg.starvation_threshold_ms now_ms d.db) refl
  where
    chosen :
        (slots : List ℕ) (r : Result (Option JobRow))
        → pick_buildable cfg.starvation_threshold_ms now_ms d.db ≡ r
        → IsSafe (build_choice now_ms d slots r).1 (build_choice now_ms d slots r).0.db.jobs
    chosen slots (ok none) e = (v, tt)
    chosen [] (ok (some j)) e = (v, tt)
    chosen (slot ∷ rest) (ok (some j)) e =
        (v, pick_buildable-BuildHolds cfg.starvation_threshold_ms now_ms d.db {p = j} v e)
    chosen slots (err why) e = (v, tt)
    chosen slots (panicked why) e = (v, tt)

pub touch_last_used-jobs :
    (id : String) (now_ms : ℕ) (db : Database) → (touch_last_used id now_ms db).0.jobs ≡ db.jobs
unfolding touch_last_used
touch_last_used-jobs id now_ms db = ground arith

run_claimed-IsValid :
    (s : ScheduledJob) (now_ms : ℕ) (d : Daemon) (r : Database × Result (Unit {0}))
    → IsValid r.0.jobs
    → IsValid (run_claimed s now_ms d r).0.db.jobs
run_claimed-IsValid s now_ms d (db, ok u) v =
    subst IsValid (sym (touch_last_used-jobs s.board.spec.id now_ms db)) v
run_claimed-IsValid s now_ms d (db, err e) v = v
run_claimed-IsValid s now_ms d (db, panicked why) v = v

build_claimed-IsValid :
    (j : JobRow) (slot : ℕ) (d : Daemon) (r : Database × Result (Unit {0}))
    → IsValid r.0.jobs
    → IsValid (build_claimed j slot d r).0.db.jobs
build_claimed-IsValid j slot d (db, ok u) v = v
build_claimed-IsValid j slot d (db, err e) v = v
build_claimed-IsValid j slot d (db, panicked why) v = v

-- A claim keeps the table valid.
pub claim_if-IsValid :
    (c : Option Claim) (d : Daemon) → IsSafe c d.db.jobs → IsValid (claim_if c d).0.db.jobs
unfolding claim
claim_if-IsValid none d v = v.0
claim_if-IsValid (some (run_claim s now_ms)) d v =
    run_claimed-IsValid s now_ms d _
      (transition_awaiting_to_running-IsValid s.job.id d.db v.0 s.board.spec.id v.1)
claim_if-IsValid (some (build_claim j slot now_ms)) d v =
    build_claimed-IsValid j slot d _
      (transition_submitted_to_building-IsValid j.id d.db v.0 now_ms v.1.unserved)
