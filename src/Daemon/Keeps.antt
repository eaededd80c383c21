-- ===== src/Daemon/Keeps.antt =====
-- The actions of the daemon that leave the `job` table, or change it through one statement on it.
use paavo.Prelude.{
  ℕ, leb, ◌≡◌, refl, sym, subst, ◌∙◌, Bool, true, false, String, Option, none, some, List, [], ◌∷◌,
  arith, Bool-cases, inl, inr, if◌then◌else◌,
}
use paavo.Proto.Job.{JobId, JobOutcome}
use paavo.Proto.Board.{BoardSpec, is_healthy}
use paavo.Db.Store.{
  Database, JobRow, BoardRow, Result, ok, err, panicked, Result-cases, bind_result, ◌>>◌, done,
}
use paavo.Db.Board
use paavo.Db.Cache
use paavo.Db.Job.Stable.{IsStable}
use paavo.Core.Quarantine.{apply_outcome_to_board, counts_toward_infra, bump_and_check}
use paavo.Core.BuildCache.{Disk, CacheLookup, hit, miss, cache_lookup, cache_store}
use paavo.Daemon.State.{Config, RunTask, BuildStageOutcome, advanced, terminal}
use paavo.Daemon.Dispatch.{
  advance_ended, after_lookup, BuildOutcome, built, failed, cancelled, advance, look_up, build_done,
  record_outcome, finalize_terminal, finalize_run,
}
use paavo.Proto.Board.{ProbeSelector}
use paavo.Proto.Selector.{Parsed, canonicalize}
use paavo.Db.Job.Restart.{abort_interrupted_jobs}
use paavo.Daemon.Steps.{
  seed_boards, inserted, seed_found, seed_canonical, load_inventory, listed_if, after_sweep,
  restart, booted,
}

pub Board-insert-jobs :
    (spec : BoardSpec) (now_ms : ℕ) (db : Database) → (Board.insert spec now_ms db).0.jobs ≡ db.jobs
unfolding Board.insert
Board-insert-jobs spec now_ms db = ground arith

pub Board-quarantine-jobs :
    (id reason : String) (db : Database) → (Board.quarantine id reason db).0.jobs ≡ db.jobs
unfolding Board.quarantine
Board-quarantine-jobs id reason db = ground arith

pub Board-unquarantine-jobs :
    (id : String) (db : Database) → (Board.unquarantine id db).0.jobs ≡ db.jobs
unfolding Board.unquarantine
Board-unquarantine-jobs id db = ground arith

Board-delete_row-jobs : (id : String) (db : Database) → (Board.delete_row id db).0.jobs ≡ db.jobs
unfolding Board.delete_row
Board-delete_row-jobs id db = ground arith

pub Board-delete-jobs : (id : String) (db : Database) → (Board.delete id db).0.jobs ≡ db.jobs
unfolding Board.delete
Board-delete-jobs id db = elim (Result-cases (Board.find id db)) [
  | inl (none, e) ↦ rw (e, Board.delete)
  | inl (some row, e) ↦ elim (Bool-cases (is_healthy row.spec.health)) [
    | inl healthy ↦ rw (e, Board.delete, healthy)
    | inr sick ↦ rw (e, Board.delete, sick) (Board-delete_row-jobs id db)
  ]
  | inr (inl (why, e)) ↦ rw (e, Board.delete)
  | inr (inr (why, e)) ↦ rw (e, Board.delete)
]

inserted-jobs : (r : Database × Result (Unit {0})) → (inserted r).0.jobs ≡ r.0.jobs
inserted-jobs (db, ok u) = refl
inserted-jobs (db, err e) = refl
inserted-jobs (db, panicked why) = refl

seed_found-jobs :
    (r : Result (Option BoardRow)) (spec : BoardSpec) (now_ms : ℕ) (db : Database)
    → (seed_found r spec now_ms db).0.jobs ≡ db.jobs
seed_found-jobs (ok none) spec now_ms db =
    inserted-jobs (Board.insert spec now_ms db) ∙ Board-insert-jobs spec now_ms db
seed_found-jobs (ok (some row)) spec now_ms db = refl
seed_found-jobs (err e) spec now_ms db = refl
seed_found-jobs (panicked why) spec now_ms db = refl

seed_canonical-jobs :
    (s : Parsed ProbeSelector) (spec : BoardSpec) (now_ms : ℕ) (db : Database)
    → (seed_canonical s spec now_ms db).0.jobs ≡ db.jobs
seed_canonical-jobs (inl fault) spec now_ms db = refl
seed_canonical-jobs (inr selector) spec now_ms db =
    seed_found-jobs (Board.find spec.id db) (record spec { probe_selector = selector }) now_ms db

seed_boards-jobs :
    (specs : List BoardSpec) (now_ms : ℕ) (db : Database)
    → (seed_boards specs now_ms db).0.jobs ≡ db.jobs
unfolding seed_boards
seed_boards-jobs [] now_ms db = refl
seed_boards-jobs (spec ∷ specs) now_ms db =
    let r = seed_canonical (canonicalize spec.probe_selector) spec now_ms db in
    going (seed_boards-jobs specs now_ms r.0) r.1
    ∙ seed_canonical-jobs (canonicalize spec.probe_selector) spec now_ms db
  where
    going :
        (seed_boards specs now_ms
            (seed_canonical (canonicalize spec.probe_selector) spec now_ms db).0).0.jobs
          ≡ (seed_canonical (canonicalize spec.probe_selector) spec now_ms db).0.jobs
        → (b : Bool)
        → (elim b as (λ _. Database × Bool) [
          | false ↦ ((seed_canonical (canonicalize spec.probe_selector) spec now_ms db).0, false)
          | true ↦
              seed_boards specs now_ms
                (seed_canonical (canonicalize spec.probe_selector) spec now_ms db).0
        ]).0.jobs
          ≡ (seed_canonical (canonicalize spec.probe_selector) spec now_ms db).0.jobs
    going ih false = refl
    going ih true = ih

-- A start changes the jobs by its sweep alone.
pub restart-jobs :
    (seeds : List BoardSpec) (now_ms : ℕ) (db : Database)
    → (restart seeds now_ms db).0.jobs ≡ (abort_interrupted_jobs now_ms db).0.jobs
unfolding restart load_inventory
restart-jobs seeds now_ms db = swept (abort_interrupted_jobs now_ms db)
  where
    listed : (r : Database × Bool) → (listed_if r).0.jobs ≡ r.0.jobs
    listed (store, false) = refl
    listed (store, true) = refl

    swept : (r : Database × Result ℕ) → (after_sweep seeds now_ms r).0.jobs ≡ r.0.jobs
    swept (store, ok n) =
        listed (seed_boards seeds now_ms store) ∙ seed_boards-jobs seeds now_ms store
    swept (store, err e) = refl
    swept (store, panicked why) = refl

pub booted-db :
    (cfg : Config) (r : Database × Option (List BoardSpec)) → (booted cfg r).daemon.db ≡ r.0
booted-db cfg (db, some inventory) = refl
booted-db cfg (db, none) = refl

pub booted-picked :
    (cfg : Config) (r : Database × Option (List BoardSpec)) → (booted cfg r).picked ≡ none
booted-picked cfg (db, some inventory) = refl
booted-picked cfg (db, none) = refl

bind_result-jobs {ℓ κ} :
    {A : Type ℓ} {B : Type κ} (db : Database) (r : Result A)
    (f : A → Database → Database × Result B)
    → ((a : A) → (f a db).0.jobs ≡ db.jobs)
    → (bind_result db r f).0.jobs ≡ db.jobs
bind_result-jobs db (ok a) f keep = keep a
bind_result-jobs db (err e) f keep = refl
bind_result-jobs db (panicked why) f keep = refl

bump_infra_failure-jobs :
    (id : String) (db : Database) → (Board.bump_infra_failure id db).0.jobs ≡ db.jobs
unfolding Board.bump_infra_failure
bump_infra_failure-jobs id db = ground arith

reset_infra_failures-jobs :
    (id : String) (db : Database) → (Board.reset_infra_failures id db).0.jobs ≡ db.jobs
unfolding Board.reset_infra_failures
reset_infra_failures-jobs id db = ground arith

bump_and_check-jobs :
    (reason : ℕ → String) (id : String) (threshold : ℕ) (db : Database)
    → (bump_and_check reason id threshold db).0.jobs ≡ db.jobs
unfolding bump_and_check
bump_and_check-jobs reason id threshold db =
    bind_result-jobs (Board.bump_infra_failure id db).0 (Board.bump_infra_failure id db).1 _ (λ _.
      bind_result-jobs (Board.bump_infra_failure id db).0
        (Board.get id (Board.bump_infra_failure id db).0) _
        (λ row. checked row (Board.bump_infra_failure id db).0))
    ∙ bump_infra_failure-jobs id db
  where
    checked :
        (row : BoardRow) (db' : Database)
        → ((if leb threshold row.consecutive_infra_failures
              then Board.quarantine id (reason row.consecutive_infra_failures) >> done true
              else done false)
            db').0.jobs
          ≡ db'.jobs
    checked row db' = elim (Bool-cases (leb threshold row.consecutive_infra_failures)) [
      | inl over ↦ rw over (
          bind_result-jobs (Board.quarantine id (reason row.consecutive_infra_failures) db').0
            (Board.quarantine id (reason row.consecutive_infra_failures) db').1 _ (λ _. refl)
          ∙ Board-quarantine-jobs id _ db')
      | inr under ↦ rw under refl
    ]

pub apply_outcome_to_board-jobs :
    (reason : ℕ → String) (id : String) (o : JobOutcome) (clean : Bool) (threshold : ℕ)
    (db : Database)
    → (apply_outcome_to_board reason id o clean threshold db).0.jobs ≡ db.jobs
unfolding apply_outcome_to_board
apply_outcome_to_board-jobs reason id o clean threshold db =
    elim (Bool-cases (counts_toward_infra o clean)) [
      | inl bad ↦ rw bad (bump_and_check-jobs reason id threshold db)
      | inr good ↦ rw good (
          bind_result-jobs (Board.reset_infra_failures id db).0 (Board.reset_infra_failures id db).1
            _ (λ _. refl)
          ∙ reset_infra_failures-jobs id db)
    ]

pub cache_lookup-jobs :
    (disk : Disk) (tar : String) (now_ms : ℕ) (db : Database)
    → (cache_lookup disk tar now_ms db).0.jobs ≡ db.jobs
unfolding cache_lookup Cache.touch_last_used Cache.delete
cache_lookup-jobs disk tar now_ms db = ground arith

cache_store-jobs :
    (disk : Disk) (tar elf_path : String) (now_ms : ℕ) (db : Database)
    → (cache_store disk tar elf_path now_ms db).0.jobs ≡ db.jobs
unfolding cache_store Cache.upsert
cache_store-jobs disk tar elf_path now_ms db = ground arith

advance_ended-store :
    (cfg : Config) (r : Database × Result (Unit {0})) → (advance_ended cfg r).0 ≡ r.0
advance_ended-store cfg (db, ok u) = refl
advance_ended-store cfg (db, err e) = refl
advance_ended-store cfg (db, panicked why) = refl

after_lookup-store : (r : Database × CacheLookup) → (after_lookup r).0 ≡ r.0
after_lookup-store (db, hit path) = refl
after_lookup-store (db, miss) = refl

-- A stable property of the `job` table after an action on the store.
module _ (P : List JobRow → Type 0) (stable : IsStable P) (db : Database) (v : P db.jobs) where
  pub advance_stable :
      (cfg : Config) (j : JobRow) (elf_path : String) → P (advance cfg j elf_path db).0.jobs
  unfolding advance
  advance_stable cfg j elf_path =
      subst (λ (s : Database). P s.jobs) (sym (advance_ended-store cfg _))
        (stable.after_advance j.id elf_path db v)

  pub look_up_stable : (disk : Disk) (now_ms : ℕ) (j : JobRow) → P (look_up disk now_ms j db).0.jobs
  unfolding look_up
  look_up_stable disk now_ms j = elim (Bool-cases j.skip_cache) [
    | inl skip ↦ rw skip v
    | inr ask ↦ rw ask (
        subst (λ (s : Database). P s.jobs) (sym (after_lookup-store _))
          (subst P (sym (cache_lookup-jobs disk j.tar_blake3 now_ms db)) v))
  ]

  pub record_outcome_stable :
      (id : JobId) (o : JobOutcome) (now_ms : ℕ) → P (record_outcome id o now_ms db).jobs
  unfolding record_outcome
  record_outcome_stable id o now_ms = stable.after_finalize id _ db refl v

  pub finalize_terminal_stable :
      (id : JobId) (o : BuildStageOutcome) (now_ms : ℕ) → P (finalize_terminal id o now_ms db).jobs
  unfolding finalize_terminal
  finalize_terminal_stable id advanced now_ms = v
  finalize_terminal_stable id (terminal o) now_ms = record_outcome_stable id o now_ms

  pub finalize_run_stable :
      (cfg : Config) (task : RunTask) (o : JobOutcome) (clean : Bool) (now_ms : ℕ)
      → P (finalize_run cfg task o clean now_ms db).jobs
  unfolding finalize_run
  finalize_run_stable cfg task o clean now_ms =
      subst P (sym (apply_outcome_to_board-jobs _ task.board_id o clean _ _))
        (record_outcome_stable task.job.id o now_ms)

pub build_done_stable :
    (P : List JobRow → Type 0) (stable : IsStable P) (db : Database) (v : P db.jobs) (cfg : Config)
    (disk : Disk) (copied : Option String) (now_ms : ℕ) (o : BuildOutcome) (j : JobRow)
    → P (build_done cfg disk copied now_ms o j db).0.jobs
unfolding build_done
build_done_stable P stable db v cfg disk none now_ms (built elf_path) j =
    advance_stable P stable _ (subst P (sym (cache_store-jobs disk j.tar_blake3 _ now_ms db)) v) cfg
      j _
build_done_stable P stable db v cfg disk (some message) now_ms (built elf_path) j = v
build_done_stable P stable db v cfg disk none now_ms (failed stderr) j = v
build_done_stable P stable db v cfg disk (some m) now_ms (failed stderr) j = v
build_done_stable P stable db v cfg disk none now_ms cancelled j = v
build_done_stable P stable db v cfg disk (some m) now_ms cancelled j = v
