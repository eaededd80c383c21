-- ===== src/Core/Cancel.antt =====
-- crates/paavo-core/src/cancel.rs: cancellation of a job that no worker holds.
pub mod Cases
use paavo.Prelude.{ℕ, Bool, true, false, ◌||◌, Option, none, some, if◌then◌else◌}
use paavo.Proto.Job.{JobId, JobState, JobOutcome, submitted, awaiting_board, user, state_eq}
use paavo.Db.Store.{Database, JobRow, Result}
use paavo.Db.Job.Queries.{get}
use paavo.Db.Job.Moves.{finalize}
use paavo.Core.Enqueue.{Outcome, CoreError, db, not_cancellable, from_db}

abbrev pub user_abort : JobOutcome
user_abort = JobOutcome.aborted user

abbrev pub abort_now : JobId → ℕ → Database → Database × Outcome (Option JobOutcome)
abort_now id now_ms store =
    from_db (λ _. Outcome.ok (some user_abort))
      (finalize id
        (record { state = JobState.aborted; outcome = user_abort; finished_at_ms = now_ms }) store)

abbrev pub cancel_found :
    (JobState → Bool)
    → JobId
    → ℕ
    → Result JobRow
    → Database
    → Database × Outcome (Option JobOutcome)
cancel_found may id now_ms (Result.ok row) store =
    if may row.state
    then abort_now id now_ms store
    else (store, Outcome.err (not_cancellable row.state))
cancel_found may id now_ms (Result.err e) store = (store, Outcome.err (db e))
cancel_found may id now_ms (Result.panicked why) store = (store, Outcome.panicked why)

unfoldable pub cancel_if_submitted : JobId → ℕ → Database → Database × Outcome (Option JobOutcome)
unfolding get finalize
cancel_if_submitted id now_ms store =
    cancel_found (λ s. state_eq s submitted) id now_ms (get id store) store

abbrev pub is_pending : JobState → Bool
is_pending s = state_eq s submitted || state_eq s awaiting_board

unfoldable pub cancel_if_pending : JobId → ℕ → Database → Database × Outcome (Option JobOutcome)
unfolding get finalize
cancel_if_pending id now_ms store = cancel_found is_pending id now_ms (get id store) store
