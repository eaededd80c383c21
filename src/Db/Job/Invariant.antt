-- ===== src/Db/Job/Invariant.antt =====
-- What holds of the `job` table between two statements, and that the statements keep it.
use paavo.Prelude.{
  ℕ, ◌≤◌, ◌≡◌, Bool, true, String, Option, none, some, List, [], arith, All, All-update_where,
  count_where, update_where, count_where-update-add, &&-eq_true, count_where-update-eq,
  count_where_mono,
}
use paavo.Proto.Job.{JobId, JobState, JobOutcome, submitted, building, running, awaiting_board}
use paavo.Db.Store.{JobRow}
use paavo.Db.Board.{runs_on}
use paavo.Db.Job.{has_id, builds}
use paavo.Db.Job.Moves.{is_at, is_open}

abbrev pub terminal_state_of : JobOutcome → JobState
terminal_state_of JobOutcome.passed = JobState.passed
terminal_state_of (JobOutcome.failed o) = JobState.failed
terminal_state_of (JobOutcome.timed_out r ms) = JobState.timed_out
terminal_state_of (JobOutcome.aborted by) = JobState.aborted

-- What the columns of one row say of each other.
abbrev pub FinishedAgrees : JobState → Option JobOutcome → Option ℕ → Type 0
FinishedAgrees s none none = is_open s ≡ true
FinishedAgrees s none (some at) = ⊥
FinishedAgrees s (some o) none = ⊥
FinishedAgrees s (some o) (some at) = s ≡ terminal_state_of o

abbrev pub ProgressAgrees : JobState → Option String → Option ℕ → Option String → Type 0
ProgressAgrees submitted board started elf = (board ≡ none) × (started ≡ none) × (elf ≡ none)
ProgressAgrees building board started elf =
    (board ≡ none) × (elf ≡ none) × ((t : ℕ) × (started ≡ some t))
ProgressAgrees awaiting_board board started elf =
    (board ≡ none) × ((t : ℕ) × (started ≡ some t)) × ((p : String) × (elf ≡ some p))
ProgressAgrees running board started elf =
    ((b : String) × (board ≡ some b))
    × ((t : ℕ) × (started ≡ some t))
    × ((p : String) × (elf ≡ some p))
ProgressAgrees _ board started elf = Unit

pub record IsConsistent (row : JobRow) : Type 0 where
  pub finished : FinishedAgrees row.state row.outcome row.finished_at
  pub progress : ProgressAgrees row.state row.board_id row.started_at row.elf_path

pub record IsValid (jobs : List JobRow) : Type 0 where
  -- the primary key
  pub unique : (id : JobId) → count_where (has_id id) jobs ≤ 1
  -- no board runs two jobs
  pub exclusive : (b : String) → count_where (runs_on b) jobs ≤ 1
  -- no tar is built twice at a time
  pub single_flight : (tar : String) → count_where (builds tar) jobs ≤ 1
  pub consistent : All IsConsistent jobs

pub empty-IsValid : IsValid []
unfolding count_where
empty-IsValid = record {
  unique = λ id. omega arith;
  exclusive = λ b. omega arith;
  single_flight = λ tar. omega arith;
  consistent = tt;
}

-- An update of one row at most, in a state `from`, that keeps the id.
pub record IsMove (id : JobId) (from : JobState) (set : JobRow → JobRow) : Type 0 where
  pub same_id : (row : JobRow) → (set row).id ≡ row.id
  pub keeps_consistent :
      (row : JobRow) → is_at id from row ≡ true → IsConsistent row → IsConsistent (set row)

module _ (id : JobId) (from : JobState) (set : JobRow → JobRow) (is_move : IsMove id from set)
    {jobs : List JobRow} (valid : IsValid jobs) where
  pub moved_unique :
      (i : JobId) → count_where (has_id i) (update_where (is_at id from) set jobs) ≤ 1
  moved_unique i = omega (
    arith,
    count_where-update-eq (has_id i) (is_at id from) set (λ row _. rw (is_move.same_id row)) jobs,
    valid.unique i,
  )

  -- A row that begins to fit `q` is the only one, if none fitted it.
  pub moved-at_most_one :
      (q : JobRow → Bool)
      → count_where q jobs ≡ 0
      → count_where q (update_where (is_at id from) set jobs) ≤ 1
  moved-at_most_one q zero_before = omega (
    arith,
    count_where-update-add q (is_at id from) set jobs,
    count_where_mono (is_at id from) (has_id id) (λ row h. (&&-eq_true _ _ h).0) jobs,
    valid.unique id,
  )

  pub moved-IsConsistent : All IsConsistent (update_where (is_at id from) set jobs)
  moved-IsConsistent =
      All-update_where IsConsistent (is_at id from) set is_move.keeps_consistent jobs
        valid.consistent
