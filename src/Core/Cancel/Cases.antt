-- ===== src/Core/Cancel/Cases.antt =====
-- Every answer of `cancel_if_pending`, and what it leaves in the store.
use paavo.Prelude.{
  ℕ, ◌≤◌, ◌<◌, ◌==◌, ◌≡◌, refl, subst, true, false, some, Memᴰ, inl, inr, arith, Bool-cases,
  if◌then◌else◌, count_where, count_where_pos, update_where, find_where_unique, update_where-cong,
  count_where_unique,
}
use paavo.Proto.Job.{JobState, is_terminal}
use paavo.Db.Store.{Database, JobRow, Result}
use paavo.Db.Job.{has_id, from_row}
use paavo.Db.Job.Queries.{get}
use paavo.Db.Job.Moves.{OutcomeRecord, can_finalize, finalized, finalize, is_open}
use paavo.Core.Enqueue.{Outcome, not_cancellable}
use paavo.Core.Cancel.{user_abort, is_pending, cancel_if_pending}

abbrev pub abort_at : ℕ → OutcomeRecord
abort_at now_ms = record { state = JobState.aborted; outcome = user_abort; finished_at_ms = now_ms }

module _ (store : Database) (row : JobRow) (unique : count_where (has_id row.id) store.jobs ≤ 1)
    (queued : Memᴰ row store.jobs) where
  here : has_id row.id row ≡ true
  here = ground arith

  -- Where the job may be ended, `finalize` writes its row and no other.
  finalize-eq :
      (rec : OutcomeRecord)
      → is_terminal rec.state ≡ true
      → is_open row.state ≡ true
      → finalize row.id rec store ≡ (
        record store { jobs = update_where (has_id row.id) (finalized rec) store.jobs },
        Result.ok tt,
      )
  unfolding finalize
  finalize-eq rec terminal going =
      let may : can_finalize row.id row ≡ true = rw (here, going) refl in
      let one : (count_where (can_finalize row.id) store.jobs == 0) ≡ false =
        nonzero (count_where_pos (can_finalize row.id) store.jobs queued may) in
      let same =
        update_where-cong (finalized rec) (can_finalize row.id) (has_id row.id) store.jobs λ x m.
          elim (Bool-cases (has_id row.id x)) [
            | inl e ↦
                let at : row ≡ x =
                  count_where_unique (has_id row.id) store.jobs unique queued here m e in
                rw (e, subst (λ (r : JobRow). is_open r.state ≡ true) at going)
            | inr e ↦ rw e refl
          ] in
      rw (terminal, one, same) refl
    where
      nonzero : {n : ℕ} → 0 < n → (n == 0) ≡ false
      nonzero {n} h = ground arith

  get-eq : from_row row ≡ Result.ok row → get row.id store ≡ Result.ok row
  unfolding get
  get-eq read = rw (find_where_unique (has_id row.id) store.jobs unique queued here, get, read)

  -- For a readable job with a unique id, cancelling aborts it at once if it is submitted or awaits a
  -- board, and writes no other row; in any other state it answers that state and changes nothing.
  pub cancel_if_pending-eq :
      (now_ms : ℕ)
      → from_row row ≡ Result.ok row
      → cancel_if_pending row.id now_ms store ≡ (
          if is_pending row.state
          then (
            record store {
              jobs = update_where (has_id row.id) (finalized (abort_at now_ms)) store.jobs;
            },
            Outcome.ok (some user_abort),
          )
          else (store, Outcome.err (not_cancellable row.state)))
  unfolding cancel_if_pending is_terminal
  cancel_if_pending-eq now_ms read = elim (Bool-cases (is_pending row.state)) [
    | inl pending ↦
        rw
          (
            get-eq read,
            cancel_if_pending,
            pending,
            finalize-eq (abort_at now_ms) refl (open_of row.state pending),
          )
          refl
    | inr held ↦ rw (get-eq read, cancel_if_pending, held) refl
  ]
    where
      open_of : (s : JobState) → is_pending s ≡ true → is_open s ≡ true
      open_of s h = ground arith
