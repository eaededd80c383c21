-- ===== src/Db/Job/Moves.antt =====
-- crates/paavo-db/src/job.rs: insertion, the state transitions, and deletion.
use paavo.Prelude.{
  ℕ, ◌==◌, ltb, Bool, true, false, ◌&&◌, String, none, some, List, [], ◌∷◌, ◌++◌, if◌then◌else◌,
  count_where, update_where, delete_where,
}
use paavo.Proto.Job.{
  JobId, Priority, JobSource, JobState, JobOutcome, submitted, building, running, awaiting_board,
  is_terminal,
}
use paavo.Proto.Board.{BoardSelector}
use paavo.Db.Store.{
  JobRow, FrameRow, Action, ok, err, panicked, sqlite, unknown_enum, primary_key, foreign_key,
}
use paavo.Db.Board.{has_board_id}
use paavo.Db.Job.{has_id, in_state}

pub record NewJob : Type 0 where
  pub id : JobId
  pub priority : Priority
  pub submitter : String
  pub source : JobSource
  pub board_selector : BoardSelector
  pub inactivity_timeout_ms : ℕ
  pub hard_max_ms : ℕ
  pub tar_blake3 : String
  pub tar_path : String
  pub cargo_update_packages : List String
  pub skip_cache : Bool

pub record OutcomeRecord : Type 0 where
  pub state : JobState
  pub outcome : JobOutcome
  pub finished_at_ms : ℕ

abbrev pub new_row : NewJob → ℕ → JobRow
new_row j now_ms = record {
  id = j.id;
  priority = j.priority;
  submitter = j.submitter;
  source = j.source;
  board_selector = j.board_selector;
  inactivity_timeout_ms = j.inactivity_timeout_ms;
  hard_max_ms = j.hard_max_ms;
  state = submitted;
  outcome = none;
  board_id = none;
  submitted_at = now_ms;
  started_at = none;
  finished_at = none;
  tar_blake3 = j.tar_blake3;
  tar_path = j.tar_path;
  elf_path = none;
  cargo_update_packages = j.cargo_update_packages;
  skip_cache = j.skip_cache;
}

unfoldable pub insert : NewJob → ℕ → Action (Unit {0})
insert j now_ms db =
    if ltb 0 (count_where (has_id j.id) db.jobs)
    then (db, err (sqlite primary_key))
    else (record db { jobs = db.jobs ++ new_row j now_ms ∷ [] }, ok tt)

-- `WHERE id = … AND state = …`
abbrev pub is_at : JobId → JobState → JobRow → Bool
is_at id from row = has_id id row && in_state from row

-- An `UPDATE job` with such a `WHERE`, refused if it affects no row.
unfoldable pub move : JobId → JobState → String → (JobRow → JobRow) → Action (Unit {0})
move id from expected set db =
    if count_where (is_at id from) db.jobs == 0
    then (db, err (unknown_enum "job.state" expected))
    else (record db { jobs = update_where (is_at id from) set db.jobs }, ok tt)

-- The same where the update names a board, whose row the foreign key wants.
unfoldable pub move_onto :
    String → JobId → JobState → String → (JobRow → JobRow) → Action (Unit {0})
unfolding move
move_onto board_id id from expected set db =
    if ltb 0 (count_where (is_at id from) db.jobs)
      && count_where (has_board_id board_id) db.boards == 0
    then (db, err (sqlite foreign_key))
    else move id from expected set db

unfoldable pub transition_to_building : JobId → String → ℕ → Action (Unit {0})
unfolding move_onto
transition_to_building id board_id now_ms =
    move_onto board_id id submitted "expected 'submitted' for transition_to_building"
      (λ row. record row { state = building; board_id = some board_id; started_at = some now_ms })

unfoldable pub transition_to_running : JobId → String → Action (Unit {0})
unfolding move
transition_to_running id elf_path =
    move id building "expected 'building' for transition_to_running"
      (λ row. record row { state = running; elf_path = some elf_path })

unfoldable pub transition_submitted_to_building : JobId → ℕ → Action (Unit {0})
unfolding move
transition_submitted_to_building id now_ms =
    move id submitted "expected 'submitted' for transition_submitted_to_building"
      (λ row. record row { state = building; started_at = some now_ms })

unfoldable pub transition_building_to_awaiting_board : JobId → String → Action (Unit {0})
unfolding move
transition_building_to_awaiting_board id elf_path =
    move id building "expected 'building' for transition_building_to_awaiting_board"
      (λ row. record row { state = awaiting_board; elf_path = some elf_path })

unfoldable pub transition_awaiting_to_running : JobId → String → Action (Unit {0})
unfolding move_onto
transition_awaiting_to_running id board_id =
    move_onto board_id id awaiting_board
      "expected 'awaiting_board' for transition_awaiting_to_running"
      (λ row. record row { state = running; board_id = some board_id })

-- `state IN ('submitted','building','awaiting_board','running')`
abbrev pub is_open : JobState → Bool
is_open submitted = true
is_open building = true
is_open running = true
is_open awaiting_board = true
is_open _ = false

abbrev pub can_finalize : JobId → JobRow → Bool
can_finalize id row = has_id id row && is_open row.state

abbrev pub finalized : OutcomeRecord → JobRow → JobRow
finalized rec row = record row {
  state = rec.state;
  outcome = some rec.outcome;
  finished_at = some rec.finished_at_ms;
}

unfoldable pub finalize : JobId → OutcomeRecord → Action (Unit {0})
unfolding is_terminal
finalize id rec db =
    if is_terminal rec.state
    then if count_where (can_finalize id) db.jobs == 0
      then (
        db,
        err (
            unknown_enum "job.state"
              "expected non-terminal state (or unknown job id) for finalize"),
      )
      else (record db { jobs = update_where (can_finalize id) (finalized rec) db.jobs }, ok tt)
    else (db, panicked "finalize requires a terminal state")

-- `ON DELETE CASCADE` takes the job's frames along.
unfoldable pub delete : JobId → Action (Unit {0})
delete id db = (
  record db {
    jobs = delete_where (has_id id) db.jobs;
    frames = delete_where (λ (f : FrameRow). f.job_id == id) db.frames;
  },
  ok tt,
)
