-- ===== src/Core/Scheduler/Buildable.antt =====
-- `pick_buildable`: which submitted job is built next.
use paavo.Prelude.{
  ℕ, ◌≤◌, ◌≡◌, sym, subst, true, ◌==◌, str_eq, none, some, Memᴰ, arith, count_where,
  count_where-map-rows, find_where, find_where-some, find_where-none, All-of_count_where, All-mem,
}
use paavo.Prelude.Sort.{find_where-least}
use paavo.Proto.Job.{submitted, building}
use paavo.Db.Store.{Database, JobRow, ok}
use paavo.Db.Job.{in_state, builds}
use paavo.Db.Job.Queries.{list_submitted, building_tar_blake3s}
use paavo.Core.Scheduler.{max_submitted_scan, promote, promoted, is_buildable, pick_buildable}
use paavo.Core.Scheduler.Order.{Precedes}
use paavo.Core.Scheduler.Scan.{promoted-IsOrdered, scan_sound, scan_complete}
use paavo.Core.Scheduler.Loop.{Precedes-refl, on_ok-ok}

-- A submitted job that no running build would serve.
pub record CouldBuild (db : Database) (j : JobRow) : Type 0 where
  pub queued : Memᴰ j db.jobs
  pub waiting : j.state ≡ submitted
  pub unserved : count_where (builds j.tar_blake3) db.jobs ≡ 0

pub record IsBuildablePick (threshold_ms now_ms : ℕ) (db : Database) (j p : JobRow) : Type 0 where
  pub could_build : CouldBuild db j
  pub is_promoted : p ≡ promote threshold_ms now_ms j
  pub first_served : (k : JobRow) → CouldBuild db k → Precedes p (promote threshold_ms now_ms k)

is_buildable_iff :
    (db : Database) (j : JobRow)
    → is_buildable (building_tar_blake3s db) j ≡ (count_where (builds j.tar_blake3) db.jobs == 0)
unfolding building_tar_blake3s
is_buildable_iff db j = rw (
    count_where-map-rows (in_state building) (λ t. str_eq t j.tar_blake3)
      (λ (row : JobRow). row.tar_blake3) db.jobs)

pub promote-tar_blake3 :
    (threshold_ms now_ms : ℕ) (j : JobRow)
    → (promote threshold_ms now_ms j).tar_blake3 ≡ j.tar_blake3
unfolding promote
promote-tar_blake3 threshold_ms now_ms j = ground arith

module _ (threshold_ms now_ms : ℕ) (db : Database) where
  unserved_of :
      (j : JobRow)
      → is_buildable (building_tar_blake3s db) (promote threshold_ms now_ms j) ≡ true
      → count_where (builds j.tar_blake3) db.jobs ≡ 0
  unserved_of j h =
      let same = promote-tar_blake3 threshold_ms now_ms j in
      subst (λ t. count_where (builds t) db.jobs ≡ 0) same
        (ground (arith, is_buildable_iff db (promote threshold_ms now_ms j)))

  buildable_of :
      (j : JobRow)
      → count_where (builds j.tar_blake3) db.jobs ≡ 0
      → is_buildable (building_tar_blake3s db) (promote threshold_ms now_ms j) ≡ true
  buildable_of j h =
      let moved =
        subst (λ t. count_where (builds t) db.jobs ≡ 0)
          (sym (promote-tar_blake3 threshold_ms now_ms j)) h in
      ground (arith, is_buildable_iff db (promote threshold_ms now_ms j))

  pub pick_buildable_sound :
      {p : JobRow}
      → pick_buildable threshold_ms now_ms db ≡ ok (some p)
      → (j : JobRow) × CouldBuild db j × (p ≡ promote threshold_ms now_ms j)
  unfolding pick_buildable list_submitted
  pick_buildable_sound {p} h =
      let (jobs, scanned, k) = on_ok-ok (list_submitted max_submitted_scan db) _ h in
      let found : find_where _ (promoted threshold_ms now_ms jobs) ≡ some p = cc in
      let (m, t) = find_where-some (is_buildable (building_tar_blake3s db)) _ found in
      let (j, queued, waiting, e) =
        scan_sound threshold_ms now_ms max_submitted_scan submitted db scanned p m in
      (
        j,
        record {
          queued = queued;
          waiting = waiting;
          unserved =
              unserved_of j (subst (λ i. is_buildable (building_tar_blake3s db) i ≡ true) e t);
        },
        e,
      )

  module _ (enough : count_where (in_state submitted) db.jobs ≤ max_submitted_scan) where
    -- If at most 200 jobs are submitted, a pick of the build stage is a submitted job whose tar is
    -- not being built, promoted if it starved, and no other such job goes before it.
    pub pick_buildable_best :
        {p : JobRow}
        → pick_buildable threshold_ms now_ms db ≡ ok (some p)
        → (j : JobRow) × IsBuildablePick threshold_ms now_ms db j p
    unfolding pick_buildable list_submitted
    pick_buildable_best {p} h =
        let (jobs, scanned, k) = on_ok-ok (list_submitted max_submitted_scan db) _ h in
        let (j, could, e) = pick_buildable_sound {p = p} h in
        (
          j,
          record {
            could_build = could;
            is_promoted = e;
            first_served = λ l c.
                find_where-least Precedes (is_buildable (building_tar_blake3s db)) Precedes-refl
                  (promoted threshold_ms now_ms jobs) {a = p}
                  (promoted-IsOrdered threshold_ms now_ms jobs) (ground arith)
                  (promote threshold_ms now_ms l)
                  (scan_complete threshold_ms now_ms max_submitted_scan submitted db scanned enough
                    l c.queued c.waiting)
                  (buildable_of l c.unserved);
          },
        )

    -- If at most 200 jobs are submitted and none is picked, the tar of every submitted job is being
    -- built.
    pub pick_buildable_idle :
        pick_buildable threshold_ms now_ms db ≡ ok none → (j : JobRow) → ¬ CouldBuild db j
    unfolding pick_buildable list_submitted
    pick_buildable_idle h j c =
        let (jobs, scanned, k) = on_ok-ok (list_submitted max_submitted_scan db) _ h in
        let none_fits = All-of_count_where (is_buildable (building_tar_blake3s db)) _ (
          find_where-none (is_buildable (building_tar_blake3s db))
            (promoted threshold_ms now_ms jobs) (ground arith)) in
        let misfit =
          All-mem _ (promoted threshold_ms now_ms jobs) none_fits (promote threshold_ms now_ms j) (
            scan_complete threshold_ms now_ms max_submitted_scan submitted db scanned enough j
              c.queued c.waiting) in
        cc (misfit, buildable_of j c.unserved)
