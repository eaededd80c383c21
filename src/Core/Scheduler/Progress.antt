-- ===== src/Core/Scheduler/Progress.antt =====
-- On tables that can be read a pick never fails, and it finds a job whenever there is one.
use paavo.Prelude.{
  ℕ, ◌≤◌, ◌≡◌, refl, Option, none, some, List, [], ◌∷◌, Memᴰ, take, mem-take, All-of_mem,
  Option-cases, inl, inr, count_where, find_where, rows_where, mem-rows_where,
}
use paavo.Prelude.Sort.{sort_by, mem-sort_by}
use paavo.Proto.Board.{BoardSelector}
use paavo.Proto.Job.{JobState, submitted, awaiting_board}
use paavo.Db.Store.{Database, BoardRow, JobRow, ok}
use paavo.Db.Board
use paavo.Db.Board.{is_candidate, find_healthy_for_selector}
use paavo.Db.Decode.{decode_all_total}
use paavo.Db.Job
use paavo.Db.Job.{in_state}
use paavo.Db.Job.Queries.{
  list_in_dispatch_order, list_submitted, list_awaiting_board, dispatch_leb, building_tar_blake3s,
}
use paavo.Core.Scheduler.{
  ScheduledJob, pick_or, lru_pick, on_ok, promoted, first_dispatchable, is_buildable, pick_runnable,
  pick_buildable, max_submitted_scan,
}
use paavo.Core.Scheduler.Runnable.{CouldRun, pick_runnable_idle}
use paavo.Core.Scheduler.Buildable.{CouldBuild, pick_buildable_idle}

-- Every row of the two tables decodes.
pub record IsReadable (db : Database) : Type 0 where
  pub jobs : (j : JobRow) → Memᴰ j db.jobs → Job.from_row j ≡ ok j
  pub boards : (b : BoardRow) → Memᴰ b db.boards → Board.from_row b ≡ ok b

module _ (db : Database) (readable : IsReadable db) where
  list_in_dispatch_order_total :
      (s : JobState) (limit : ℕ)
      → (jobs : List JobRow) × (list_in_dispatch_order s limit db ≡ ok jobs)
  unfolding list_in_dispatch_order
  list_in_dispatch_order_total s limit =
      let rows = rows_where (in_state s) db.jobs in
      (
        take limit (sort_by dispatch_leb rows),
        decode_all_total Job.from_row (take limit (sort_by dispatch_leb rows)) (
            All-of_mem _ _ λ j m.
              readable.jobs j
                (mem-rows_where (in_state s) db.jobs
                  (mem-sort_by dispatch_leb rows (mem-take limit _ m))).0),
      )

  find_healthy_for_selector_total :
      (sel : BoardSelector) → (bs : List BoardRow) × (find_healthy_for_selector sel db ≡ ok bs)
  unfolding find_healthy_for_selector
  find_healthy_for_selector_total sel = (
    rows_where (is_candidate db sel) db.boards,
    decode_all_total Board.from_row (rows_where (is_candidate db sel) db.boards) (
        All-of_mem _ _
          λ b m. readable.boards b (mem-rows_where (is_candidate db sel) db.boards m).0),
  )

  first_dispatchable_total :
      (js : List JobRow) → (r : Option ScheduledJob) × (first_dispatchable db js ≡ ok r)
  unfolding first_dispatchable
  first_dispatchable_total [] = (none, refl)
  first_dispatchable_total (j ∷ js) =
      let (bs, found) = find_healthy_for_selector_total j.board_selector in
      let (r, later) = first_dispatchable_total js in
      elim (Option-cases (lru_pick bs)) [
        | inl missed ↦ (r, rw (found, pick_or, missed) later)
        | inr (b, taken) ↦ (some (record { job = j; board = b }), rw (found, pick_or, taken) refl)
      ]

  module _ (threshold_ms now_ms : ℕ) where
    -- On tables whose rows all decode, with at most 200 jobs waiting for a board, a pick of the run
    -- stage finds a job whenever some waiting job has a matching healthy idle board.
    pub pick_runnable_progress :
        count_where (in_state awaiting_board) db.jobs ≤ max_submitted_scan
        → (j : JobRow) (b : BoardRow) → CouldRun db j b
        → (s : ScheduledJob) × (pick_runnable threshold_ms now_ms db ≡ ok (some s))
    unfolding pick_runnable list_awaiting_board
    pick_runnable_progress enough j b could =
        let (jobs, scanned) = list_in_dispatch_order_total awaiting_board max_submitted_scan in
        let (r, e) = first_dispatchable_total (promoted threshold_ms now_ms jobs) in
        picked r (rw (scanned, on_ok) e)
      where
        picked :
            (r : Option ScheduledJob)
            → pick_runnable threshold_ms now_ms db ≡ ok r
            → (s : ScheduledJob) × (pick_runnable threshold_ms now_ms db ≡ ok (some s))
        picked none e = absurd (pick_runnable_idle threshold_ms now_ms db enough e j b could)
        picked (some s) e = (s, e)

    -- On tables whose rows all decode, with at most 200 jobs submitted, a pick of the build stage
    -- finds a job whenever the tar of some submitted job is not being built.
    pub pick_buildable_progress :
        count_where (in_state submitted) db.jobs ≤ max_submitted_scan
        → (j : JobRow) → CouldBuild db j
        → (p : JobRow) × (pick_buildable threshold_ms now_ms db ≡ ok (some p))
    unfolding pick_buildable list_submitted
    pick_buildable_progress enough j could =
        let (jobs, scanned) = list_in_dispatch_order_total submitted max_submitted_scan in
        picked
          (find_where (is_buildable (building_tar_blake3s db)) (promoted threshold_ms now_ms jobs))
          (rw (scanned, on_ok) refl)
      where
        picked :
            (r : Option JobRow)
            → pick_buildable threshold_ms now_ms db ≡ ok r
            → (p : JobRow) × (pick_buildable threshold_ms now_ms db ≡ ok (some p))
        picked none e = absurd (pick_buildable_idle threshold_ms now_ms db enough e j could)
        picked (some p) e = (p, e)
