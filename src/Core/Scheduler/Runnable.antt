-- ===== src/Core/Scheduler/Runnable.antt =====
-- `pick_runnable`: which waiting job starts next, and on which board.
use paavo.Prelude.{ℕ, ◌≤◌, ◌≡◌, sym, subst, ap, ◌∙◌, none, some, Memᴰ, arith, count_where}
use paavo.Proto.Job.{awaiting_board}
use paavo.Db.Store.{Database, BoardRow, JobRow, ok}
use paavo.Db.Job.{in_state}
use paavo.Db.Job.Queries.{list_awaiting_board}
use paavo.Core.Scheduler.{ScheduledJob, max_submitted_scan, promote, promoted, pick_runnable}
use paavo.Core.Scheduler.Order.{Precedes}
use paavo.Core.Scheduler.Boards.{IsAvailable}
use paavo.Core.Scheduler.Scan.{promoted-IsOrdered, scan_sound, scan_complete}
use paavo.Core.Scheduler.Loop.{
  IsBestBoard, first_dispatchable-best, first_dispatchable-none, on_ok-ok,
}

-- A waiting job that could start now.
pub record CouldRun (db : Database) (j : JobRow) (b : BoardRow) : Type 0 where
  pub queued : Memᴰ j db.jobs
  pub waiting : j.state ≡ awaiting_board
  pub available : IsAvailable db j.board_selector b

-- What a pick promises: the job waits, its board is the best one, and no waiting job that could
-- start now precedes it, promotions counted.
pub record IsRunnablePick (threshold_ms now_ms : ℕ) (db : Database) (j : JobRow) (s : ScheduledJob)
    : Type 0 where
  pub queued : Memᴰ j db.jobs
  pub waiting : j.state ≡ awaiting_board
  pub is_promoted : s.job ≡ promote threshold_ms now_ms j
  pub on_best_board : IsBestBoard db j s.board
  pub first_served :
      (k : JobRow) (b : BoardRow) → CouldRun db k b → Precedes s.job (promote threshold_ms now_ms k)

promote-selector :
    (threshold_ms now_ms : ℕ) (j : JobRow)
    → (promote threshold_ms now_ms j).board_selector ≡ j.board_selector
unfolding promote
promote-selector threshold_ms now_ms j = ground arith

IsBestBoard-selector :
    (db : Database) (i j : JobRow) (b : BoardRow)
    → i.board_selector ≡ j.board_selector
    → IsBestBoard db i b
    → IsBestBoard db j b
IsBestBoard-selector db i j b e best = record {
  available = subst (λ sel. IsAvailable db sel b) e best.available;
  longest_unused = λ c a. best.longest_unused c (subst (λ sel. IsAvailable db sel c) (sym e) a);
}

module _ (threshold_ms now_ms : ℕ) (db : Database)
    (enough : count_where (in_state awaiting_board) db.jobs ≤ max_submitted_scan) where
  -- If at most 200 jobs wait for a board, a pick of the run stage is a waiting job, promoted if it
  -- starved, on the matching healthy idle board that was unused for longest, and no waiting job that
  -- could run goes before it in priority and age.
  pub pick_runnable_best :
      {s : ScheduledJob}
      → pick_runnable threshold_ms now_ms db ≡ ok (some s)
      → (j : JobRow) × IsRunnablePick threshold_ms now_ms db j s
  unfolding pick_runnable list_awaiting_board
  pick_runnable_best {s} h =
      let (jobs, scanned, k) = on_ok-ok (list_awaiting_board max_submitted_scan db) _ h in
      let pick =
        first_dispatchable-best db (promoted threshold_ms now_ms jobs) {s = s}
          (promoted-IsOrdered threshold_ms now_ms jobs) k in
      let (j, queued, waiting, e) =
        scan_sound threshold_ms now_ms max_submitted_scan awaiting_board db scanned s.job
          pick.listed in
      let same : s.job.board_selector ≡ j.board_selector =
        ap (λ (i : JobRow). i.board_selector) e ∙ promote-selector threshold_ms now_ms j in
      (
        j,
        record {
          queued = queued;
          waiting = waiting;
          is_promoted = e;
          on_best_board = IsBestBoard-selector db s.job j s.board same pick.on_best_board;
          first_served = λ l b c.
              pick.first_served (promote threshold_ms now_ms l)
                (scan_complete threshold_ms now_ms max_submitted_scan awaiting_board db scanned
                  enough l c.queued c.waiting)
                b
                (subst (λ sel. IsAvailable db sel b) (sym (promote-selector threshold_ms now_ms l))
                  c.available);
        },
      )

  -- If at most 200 jobs wait for a board and none is picked, no waiting job has a matching healthy
  -- idle board.
  pub pick_runnable_idle :
      pick_runnable threshold_ms now_ms db ≡ ok none
      → (j : JobRow) (b : BoardRow) → ¬ CouldRun db j b
  unfolding pick_runnable list_awaiting_board
  pick_runnable_idle h j b c =
      let (jobs, scanned, k) = on_ok-ok (list_awaiting_board max_submitted_scan db) _ h in
      first_dispatchable-none db (promoted threshold_ms now_ms jobs) k
        (promote threshold_ms now_ms j)
        (scan_complete threshold_ms now_ms max_submitted_scan awaiting_board db scanned enough j
          c.queued c.waiting)
        b
        (subst (λ sel. IsAvailable db sel b) (sym (promote-selector threshold_ms now_ms j))
          c.available)
