-- ===== src/Core/Scheduler/Scan.antt =====
-- The jobs that a pick looks at: the rows in one state, as far as the scan goes, promoted and in
-- dispatch order.
use paavo.Prelude.{
  ℕ, ◌≤◌, ◌≡◌, sym, subst, ◌∙◌, true, List, map, take, Memᴰ, arith, take_all, mem-take, count_where,
  rows_where, mem-rows_where, mem-rows_where_of, length-rows_where,
}
use paavo.Prelude.Sort.{
  sort_by, mem-sort_by, mem-sort_by_of, sort_by-IsOrdered, IsOrdered, length-sort_by,
}
use mathlib.Core.List.Memᴰ
use paavo.Proto.Job.{JobState, state_eq→eq, state_eq_self}
use paavo.Db.Store.{Database, JobRow, ok}
use paavo.Db.Job.{in_state, from_row}
use paavo.Db.Job.Queries.{dispatch_leb, list_in_dispatch_order}
use paavo.Db.Decode.{decode_all-eq, Job-from_row_same}
use paavo.Core.Scheduler.{promote, promoted}
use paavo.Core.Scheduler.Order.{
  Precedes, dispatch_leb→Precedes, dispatch_leb→Precedes_back, Precedes-trans,
}

pub promoted-IsOrdered :
    (threshold_ms now_ms : ℕ) (jobs : List JobRow)
    → IsOrdered Precedes (promoted threshold_ms now_ms jobs)
unfolding promoted
promoted-IsOrdered threshold_ms now_ms jobs =
    sort_by-IsOrdered dispatch_leb Precedes dispatch_leb→Precedes dispatch_leb→Precedes_back
      Precedes-trans (map (promote threshold_ms now_ms) jobs)

module _ (threshold_ms now_ms limit : ℕ) (s : JobState) (db : Database) {jobs : List JobRow}
    (scanned : list_in_dispatch_order s limit db ≡ ok jobs) where
  scan-eq : jobs ≡ take limit (sort_by dispatch_leb (rows_where (in_state s) db.jobs))
  unfolding list_in_dispatch_order
  scan-eq = decode_all-eq from_row Job-from_row_same _ jobs scanned

  -- Whatever is picked is a row in that state, promoted.
  pub scan_sound :
      (p : JobRow)
      → Memᴰ p (promoted threshold_ms now_ms jobs)
      → (j : JobRow) × Memᴰ j db.jobs × (j.state ≡ s) × (p ≡ promote threshold_ms now_ms j)
  unfolding promoted
  scan_sound p m =
      let (j, m', e) =
        Memᴰ.of_map (promote threshold_ms now_ms) jobs (mem-sort_by dispatch_leb _ m) in
      let sorted = mem-take limit _ (subst (Memᴰ j) scan-eq m') in
      let (row, at) = mem-rows_where (in_state s) db.jobs (mem-sort_by dispatch_leb _ sorted) in
      (j, row, state_eq→eq j.state s at, sym e)

  -- No row in that state is left out if the scan reaches to the end.
  pub scan_complete :
      count_where (in_state s) db.jobs ≤ limit
      → (j : JobRow) → Memᴰ j db.jobs
      → j.state ≡ s
      → Memᴰ (promote threshold_ms now_ms j) (promoted threshold_ms now_ms jobs)
  unfolding promoted
  scan_complete enough j m e =
      let at : in_state s j ≡ true = rw e (state_eq_self s) in
      let sorted = mem-sort_by_of dispatch_leb _ (mem-rows_where_of (in_state s) db.jobs m at) in
      let all = take_all limit (sort_by dispatch_leb (rows_where (in_state s) db.jobs)) (
        omega (
          arith,
          enough,
          length-sort_by dispatch_leb (rows_where (in_state s) db.jobs),
          length-rows_where (in_state s) db.jobs,
        )) in
      mem-sort_by_of dispatch_leb _
        (Memᴰ.map (promote threshold_ms now_ms) {a = j} (rw (scan-eq ∙ all) sorted))
