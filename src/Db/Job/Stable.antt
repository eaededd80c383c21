-- ===== src/Db/Job/Stable.antt =====
-- What holds of the `job` table whatever its statements do, but for the two claims and the sweep of a
-- restart.
use paavo.Prelude.{ℕ, ◌≡◌, String, List}
use paavo.Proto.Job.{JobId}
use paavo.Db.Store.{Database, JobRow}
use paavo.Db.Job.Moves.{
  NewJob, OutcomeRecord, insert, transition_building_to_awaiting_board, finalize,
}
use paavo.Db.Job.Invariant.{IsValid, terminal_state_of}
use paavo.Db.Job.Keeps.{insert-IsValid, transition_building_to_awaiting_board-IsValid}
use paavo.Db.Job.Ends.{finalize-IsValid}

pub record IsStable (P : List JobRow → Type 0) : Type 0 where
  pub after_insert :
      (j : NewJob) (now_ms : ℕ) (db : Database) → P db.jobs → P (insert j now_ms db).0.jobs
  pub after_advance :
      (id : JobId) (elf_path : String) (db : Database)
      → P db.jobs
      → P (transition_building_to_awaiting_board id elf_path db).0.jobs
  pub after_finalize :
      (id : JobId) (rec : OutcomeRecord) (db : Database)
      → rec.state ≡ terminal_state_of rec.outcome
      → P db.jobs
      → P (finalize id rec db).0.jobs

pub IsValid-IsStable : IsStable IsValid
IsValid-IsStable = record {
  after_insert = insert-IsValid;
  after_advance =
      λ id elf_path db v. transition_building_to_awaiting_board-IsValid id db v elf_path;
  after_finalize = finalize-IsValid;
}
