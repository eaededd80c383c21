-- ===== src/Core/Scheduler/Overflow.antt =====
-- What a scan that is cut off at its limit leaves out: crates/paavo-core/src/scheduler.rs reads
-- `max_submitted_scan` rows and promotes starved jobs only after that.
use paavo.Prelude.{
  ℕ, ◌≤◌, ◌≡◌, refl, subst, Bool, false, ◌&&◌, not, List, [], ◌∷◌, Memᴰ, arith, take, All-mem,
  count_where, rows_where, Bool-cases, inl, inr,
}
use paavo.Prelude.Sort.{sort_by, sort_by-IsOrdered, count_where-sort_by, All-take_ordered}
use paavo.Proto.Job.{JobState, is_scheduled, weight}
use paavo.Db.Store.{Database, JobRow, ok}
use paavo.Db.Job.{in_state, from_row}
use paavo.Db.Job.Queries.{dispatch_leb, list_in_dispatch_order}
use paavo.Db.Decode.{decode_all-eq, Job-from_row_same}
use paavo.Core.Scheduler.Order.{
  Precedes, dispatch_leb→Precedes, dispatch_leb→Precedes_back, Precedes-trans,
}

abbrev pub is_urgent : JobRow → Bool
is_urgent j = not (is_scheduled j.priority)

-- An interactive job of that state.
abbrev pub interactive_in : JobState → JobRow → Bool
interactive_in s j = in_state s j && is_urgent j

count_where-rows_where :
    (s : JobState) (jobs : List JobRow)
    → count_where is_urgent (rows_where (in_state s) jobs) ≡ count_where (interactive_in s) jobs
unfolding count_where rows_where
count_where-rows_where s [] = refl
count_where-rows_where s (j ∷ js) = elim (Bool-cases (in_state s j)) [
  | inl keep ↦ rw keep (ground (arith, count_where-rows_where s js))
  | inr drop ↦ rw drop (count_where-rows_where s js)
]

-- When a scan succeeds, and at least as many interactive jobs are queued as it may read, it holds no
-- scheduled job, however long one has waited.
pub list_in_dispatch_order-interactive_only :
    (s : JobState) (limit : ℕ) (db : Database) {jobs : List JobRow}
    → list_in_dispatch_order s limit db ≡ ok jobs
    → limit ≤ count_where (interactive_in s) db.jobs
    → (j : JobRow) → Memᴰ j jobs
    → is_scheduled j.priority ≡ false
unfolding list_in_dispatch_order weight
list_in_dispatch_order-interactive_only s limit db {jobs} scanned crowd j m =
    let rows = rows_where (in_state s) db.jobs in
    let e : jobs ≡ take limit (sort_by dispatch_leb rows) =
      decode_all-eq from_row Job-from_row_same _ jobs scanned in
    let ordered =
      sort_by-IsOrdered dispatch_leb Precedes dispatch_leb→Precedes dispatch_leb→Precedes_back
        Precedes-trans rows in
    let urgent =
      All-take_ordered Precedes is_urgent (λ x y r h. ground arith) limit
        (sort_by dispatch_leb rows) ordered
        (omega (
          arith,
          crowd,
          count_where-sort_by dispatch_leb is_urgent rows,
          count_where-rows_where s db.jobs,
        )) in
    ground (arith, All-mem _ _ urgent j (subst (Memᴰ j) e m))
