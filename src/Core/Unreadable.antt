-- ===== src/Core/Unreadable.antt =====
-- A job whose inactivity timeout does not fit the signed column: crates/paavod/src/routes/jobs.rs checks
-- the hard limit alone against the ceiling, so `enqueue_job` takes such a job.
use paavo.Prelude.{
  ℕ, ◌≤◌, ◌≡◌, refl, sym, ap, subst, false, Option, List, [], ◌∷◌, Memᴰ, head, inl, inr, arith,
  count_where, rows_where, mem-rows_where_of, mem-append_right, take_all, length-rows_where,
  find_where_unique,
}
use paavo.Prelude.Sort.{sort_by, mem-sort_by_of, length-sort_by}
use paavo.Proto.Job.{JobId, submitted}
use paavo.Proto.Board.{BoardSpec}
use paavo.Db.Store.{Database, JobRow, Result, fits_i64, unknown_enum}
use paavo.Db.Decode.{decode_all-mem}
use paavo.Db.Job.{has_id, in_state, from_row}
use paavo.Db.Job.Queries.{list_in_dispatch_order, list_submitted, dispatch_leb, get}
use paavo.Db.Job.Moves.{new_row}
use paavo.Core.Enqueue.{EnqueueRequest, Outcome, enqueue_job, db}
use paavo.Core.Enqueue.Admission.{enqueue_job-cases}
use paavo.Core.Scheduler.{max_submitted_scan, pick_buildable}
use paavo.Core.Scheduler.Loop.{on_ok-ok}
use paavo.Core.Cancel.{cancel_if_pending}

from_row-unreadable :
    (row : JobRow)
    → fits_i64 row.inactivity_timeout_ms ≡ false
    → from_row row ≡ Result.err (unknown_enum "job.inactivity_timeout_ms" "negative or > i64::MAX")
unfolding from_row
from_row-unreadable row h = rw h

-- One row that cannot be read in the queue fails every pick.
pick_buildable-unreadable :
    (threshold_ms now_ms : ℕ) (store : Database) (row : JobRow)
    → Memᴰ row store.jobs
    → row.state ≡ submitted
    → fits_i64 row.inactivity_timeout_ms ≡ false
    → count_where (in_state submitted) store.jobs ≤ max_submitted_scan
    → (picked : Option JobRow) → ¬ (pick_buildable threshold_ms now_ms store ≡ Result.ok picked)
unfolding pick_buildable list_submitted list_in_dispatch_order
pick_buildable-unreadable threshold_ms now_ms store row m waiting bad enough picked h =
    let (jobs, scanned, k) = on_ok-ok (list_submitted max_submitted_scan store) _ h in
    let rows = rows_where (in_state submitted) store.jobs in
    let listed =
      mem-sort_by_of dispatch_leb rows
        (mem-rows_where_of (in_state submitted) store.jobs m (rw waiting)) in
    let all = take_all max_submitted_scan (sort_by dispatch_leb rows) (
      omega (
        arith,
        enough,
        length-sort_by dispatch_leb rows,
        length-rows_where (in_state submitted) store.jobs,
      )) in
    let (b, read) = decode_all-mem from_row _ {a = row} scanned (rw all listed) in
    cc (read, from_row-unreadable row bad)

pub record IsWedged (id : JobId) (store : Database) : Type 0 where
  pub builds_nothing :
      (threshold_ms now_ms : ℕ) (picked : Option JobRow)
      → ¬ (pick_buildable threshold_ms now_ms store ≡ Result.ok picked)
  pub cannot_be_cancelled :
      (now_ms : ℕ)
      → cancel_if_pending id now_ms store ≡ (
        store,
        Outcome.err (db (unknown_enum "job.inactivity_timeout_ms" "negative or > i64::MAX")),
      )

cancel_if_pending-unreadable :
    (row : JobRow) (store : Database) (now_ms : ℕ)
    → Memᴰ row store.jobs
    → count_where (has_id row.id) store.jobs ≤ 1
    → fits_i64 row.inactivity_timeout_ms ≡ false
    → cancel_if_pending row.id now_ms store ≡ (
      store,
      Outcome.err (db (unknown_enum "job.inactivity_timeout_ms" "negative or > i64::MAX")),
    )
unfolding cancel_if_pending get
cancel_if_pending-unreadable row store now_ms m unique bad =
    rw
      (
        cancel_if_pending,
        get,
        find_where_unique (has_id row.id) store.jobs unique m (ground arith),
        from_row-unreadable row bad,
      )
      refl

-- A job may be admitted with an inactivity timeout of 2^63 ms or more. In every store that holds the
-- row it is admitted as, once under its id, and at most 200 submitted jobs, each pick of the build
-- stage fails, and the job cannot be cancelled.
pub enqueue_job-unreadable :
    (inventory : List BoardSpec) (req : EnqueueRequest) (now_ms : ℕ) (store later : Database)
    {id : JobId}
    → (enqueue_job inventory req now_ms store).1 ≡ Outcome.ok id
    → fits_i64 req.inactivity_timeout_ms ≡ false
    → Memᴰ (new_row req.new now_ms) later.jobs
    → count_where (has_id req.id) later.jobs ≤ 1
    → count_where (in_state submitted) later.jobs ≤ max_submitted_scan
    → Memᴰ (new_row req.new now_ms) (enqueue_job inventory req now_ms store).0.jobs
      × IsWedged req.id later
enqueue_job-unreadable inventory req now_ms store later accepted bad queued unique enough =
    elim (enqueue_job-cases inventory req now_ms store) [
      | inr (refused, (e, answer)) ↦ cc (accepted, ap (λ r. r.1) answer)
      | inl (a, answer) ↦ (
        subst (λ (s : Database). Memᴰ (new_row req.new now_ms) s.jobs) (sym (ap (λ r. r.0) answer))
            (mem-append_right store.jobs (new_row req.new now_ms ∷ []) (head refl)),
        record {
          builds_nothing = λ threshold_ms t.
              pick_buildable-unreadable threshold_ms t later (new_row req.new now_ms) queued refl
                bad enough;
          cannot_be_cancelled =
              λ t. cancel_if_pending-unreadable (new_row req.new now_ms) later t queued unique bad;
        },
      )
    ]
