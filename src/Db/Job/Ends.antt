-- ===== src/Db/Job/Ends.antt =====
-- The statements that end jobs keep the table valid: `finalize`, the sweep at a restart, deletion.
use paavo.Prelude.{
  ℕ, ◌==◌, ltb, ◌≡◌, refl, Bool, false, List, [], ◌∷◌, arith, All-update_where, All-delete_where,
  Bool-cases, inl, inr, rows_where, count_where, update_where, count_where-update-le,
  count_where-update-eq, count_where-delete-le,
}
use paavo.Proto.Job.{JobId, JobState, JobOutcome, is_terminal}
use paavo.Db.Store.{Database, JobRow, Result, ok, err, panicked, Result-cases}
use paavo.Db.Job.Queries.{read_next_seq}
use paavo.Db.Board.{runs_on}
use paavo.Db.Job.{has_id, builds}
use paavo.Db.Job.Moves.{OutcomeRecord, can_finalize, finalized, is_open, finalize, delete}
use paavo.Db.Job.Restart.{
  is_in_flight, interrupt_row, interrupt_one, interrupt_with, after_read, interrupt_all,
  interrupted_frame, same_key, abort_interrupted_jobs, commit,
}
use paavo.Db.Job.Invariant.{IsValid, IsConsistent, ProgressAgrees, terminal_state_of}

-- An update that ends the rows it touches.
module _ (p : JobRow → Bool) (set : JobRow → JobRow) (jobs : List JobRow) (v : IsValid jobs)
    (same_id : (row : JobRow) → (set row).id ≡ row.id)
    (ends : (row : JobRow) → is_open (set row).state ≡ false)
    (consistent : (row : JobRow) → IsConsistent row → IsConsistent (set row)) where
  ended-IsValid : IsValid (update_where p set jobs)
  ended-IsValid = record {
    unique = λ i. omega (
      arith,
      count_where-update-eq (has_id i) p set (λ row _. rw (same_id row)) jobs,
      v.unique i,
    );
    exclusive = λ b. omega (
      arith,
      count_where-update-le (runs_on b) p set jobs (λ row m at now. ground (arith, ends row)),
      v.exclusive b,
    );
    single_flight = λ tar. omega (
      arith,
      count_where-update-le (builds tar) p set jobs (λ row m at now. ground (arith, ends row)),
      v.single_flight tar,
    );
    consistent =
        All-update_where IsConsistent p set (λ row _ c. consistent row c) jobs v.consistent;
  }

ends_of_outcome : (o : JobOutcome) → is_open (terminal_state_of o) ≡ false
ends_of_outcome o = ground arith

pub finalize-IsValid :
    (id : JobId) (rec : OutcomeRecord) (db : Database)
    → rec.state ≡ terminal_state_of rec.outcome
    → IsValid db.jobs
    → IsValid (finalize id rec db).0.jobs
unfolding finalize
finalize-IsValid id rec db agrees v = elim (Bool-cases (is_terminal rec.state)) [
  | inr going ↦ rw going v
  | inl terminal ↦ rw terminal (elim (Bool-cases (count_where (can_finalize id) db.jobs == 0)) [
    | inl missing ↦ rw missing v
    | inr present ↦ rw present (
        ended-IsValid (can_finalize id) (finalized rec) db.jobs v (λ row. refl)
          (λ row. rw agrees (ends_of_outcome rec.outcome))
          (λ row c. record { finished = agrees; progress = ended_progress rec.state row agrees }))
  ])
]
  where
    ended_progress :
        (s : JobState) (row : JobRow)
        → s ≡ terminal_state_of rec.outcome
        → ProgressAgrees s row.board_id row.started_at row.elf_path
    ended_progress s row e = ground arith

pub delete-IsValid : (id : JobId) (db : Database) → IsValid db.jobs → IsValid (delete id db).0.jobs
unfolding delete
delete-IsValid id db v = record {
  unique = λ i. omega (arith, count_where-delete-le (has_id i) (has_id id) db.jobs, v.unique i);
  exclusive =
      λ b. omega (arith, count_where-delete-le (runs_on b) (has_id id) db.jobs, v.exclusive b);
  single_flight = λ tar.
      omega (arith, count_where-delete-le (builds tar) (has_id id) db.jobs, v.single_flight tar);
  consistent = All-delete_where IsConsistent (has_id id) db.jobs v.consistent;
}

interrupt_with-IsValid :
    (row : JobRow) (now_ms n : ℕ) (db : Database)
    → IsValid db.jobs
    → IsValid (interrupt_with row now_ms n db).0.jobs
unfolding interrupt_with
interrupt_with-IsValid row now_ms n db v =
    elim (Bool-cases (ltb 0 (count_where (same_key (interrupted_frame row now_ms n)) db.frames))) [
      | inl taken ↦ rw taken v
      | inr free ↦ rw free (elim (Bool-cases (count_where (has_id row.id) db.jobs == 0)) [
        | inl missing ↦ rw missing v
        | inr present ↦ rw present (
            ended-IsValid (has_id row.id) (interrupt_row now_ms) db.jobs v (λ r. refl) (λ r. refl)
              (λ r c. record { finished = refl; progress = tt }))
      ])
    ]

interrupt_one-IsValid :
    (row : JobRow) (now_ms : ℕ) (db : Database)
    → IsValid db.jobs
    → IsValid (interrupt_one row now_ms db).0.jobs
unfolding interrupt_one
interrupt_one-IsValid row now_ms db v = read (read_next_seq row.id db.frames)
  where
    read : (r : Result ℕ) → IsValid (after_read db r (λ n. interrupt_with row now_ms n db)).0.jobs
    read (ok n) = interrupt_with-IsValid row now_ms n db v
    read (err e) = v
    read (panicked why) = v

interrupt_all-IsValid :
    (rows : List JobRow) (now_ms : ℕ) (db : Database)
    → IsValid db.jobs
    → IsValid (interrupt_all rows now_ms db).0.jobs
unfolding interrupt_all
interrupt_all-IsValid [] now_ms db v = v
interrupt_all-IsValid (row ∷ rows) now_ms db v =
    let after = interrupt_one-IsValid row now_ms db v in
    elim (Result-cases (interrupt_one row now_ms db).1) [
      | inl (a, e) ↦
          rw (e, interrupt_all)
            (interrupt_all-IsValid rows now_ms (interrupt_one row now_ms db).0 after)
      | inr (inl (why, e)) ↦ rw (e, interrupt_all) after
      | inr (inr (why, e)) ↦ rw (e, interrupt_all) after
    ]

pub abort_interrupted_jobs-IsValid :
    (now_ms : ℕ) (db : Database)
    → IsValid db.jobs
    → IsValid (abort_interrupted_jobs now_ms db).0.jobs
unfolding abort_interrupted_jobs
abort_interrupted_jobs-IsValid now_ms db v =
    let orphans = rows_where is_in_flight db.jobs in
    let after = interrupt_all-IsValid orphans now_ms db v in
    elim (Result-cases (interrupt_all orphans now_ms db).1) [
      | inl (a, e) ↦ rw (e, abort_interrupted_jobs, commit) after
      | inr (inl (why, e)) ↦ rw (e, abort_interrupted_jobs, commit) v
      | inr (inr (why, e)) ↦ rw (e, abort_interrupted_jobs, commit) v
    ]
