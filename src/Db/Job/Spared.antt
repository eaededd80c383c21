-- ===== src/Db/Job/Spared.antt =====
-- The sweep at a restart spares the jobs that are not in flight, whether it succeeds or not:
-- crates/paavo-db/src/job.rs, `abort_interrupted_jobs`.
use paavo.Prelude.{
  ℕ, ◌≤◌, ◌==◌, ltb, ◌≡◌, subst, false, List, [], ◌∷◌, Memᴰ, arith, All, All-of_mem, Bool-cases,
  inl, inr, rows_where, count_where, mem-rows_where, count_where_unique, mem-update_where_kept,
  length,
}
use paavo.Proto.Job.{JobId}
use paavo.Db.Store.{Database, JobRow, Result, ok, err, panicked, Result-cases}
use paavo.Db.Job.{has_id}
use paavo.Db.Job.Queries.{read_next_seq}
use paavo.Db.Job.Restart.{
  is_in_flight, interrupt_row, interrupt_one, interrupt_with, interrupt_all, interrupted_frame,
  same_key, after_read, abort_interrupted_jobs, commit,
}

module _ (row : JobRow) (now_ms : ℕ) where
  interrupt_with-mem :
      (o : JobRow) (n : ℕ) (db : Database)
      → has_id o.id row ≡ false
      → Memᴰ row db.jobs
      → Memᴰ row (interrupt_with o now_ms n db).0.jobs
  unfolding interrupt_with
  interrupt_with-mem o n db other m =
      elim (Bool-cases (ltb 0 (count_where (same_key (interrupted_frame o now_ms n)) db.frames))) [
        | inl taken ↦ rw taken m
        | inr free ↦ rw free (elim (Bool-cases (count_where (has_id o.id) db.jobs == 0)) [
          | inl missing ↦ rw missing m
          | inr present ↦
              rw present
                (mem-update_where_kept (has_id o.id) (interrupt_row now_ms) db.jobs m other)
        ])
      ]

  interrupt_one-mem :
      (o : JobRow) (db : Database)
      → has_id o.id row ≡ false
      → Memᴰ row db.jobs
      → Memᴰ row (interrupt_one o now_ms db).0.jobs
  unfolding interrupt_one
  interrupt_one-mem o db other m = read (read_next_seq o.id db.frames)
    where
      read : (r : Result ℕ) → Memᴰ row (after_read db r (λ n. interrupt_with o now_ms n db)).0.jobs
      read (ok n) = interrupt_with-mem o n db other m
      read (err e) = m
      read (panicked why) = m

  interrupt_all-mem :
      (rows : List JobRow) (db : Database)
      → All (λ (o : JobRow). has_id o.id row ≡ false) rows
      → Memᴰ row db.jobs
      → Memᴰ row (interrupt_all rows now_ms db).0.jobs
  unfolding interrupt_all
  interrupt_all-mem [] db others m = m
  interrupt_all-mem (o ∷ os) db others m =
      let kept = interrupt_one-mem o db others.0 m in
      elim (Result-cases (interrupt_one o now_ms db).1) [
        | inl (u, e) ↦
            rw (e, interrupt_all) (interrupt_all-mem os (interrupt_one o now_ms db).0 others.1 kept)
        | inr (inl (why, e)) ↦ rw (e, interrupt_all) kept
        | inr (inr (why, e)) ↦ rw (e, interrupt_all) kept
      ]

  commit-mem :
      (db : Database) (n : ℕ) (r : Database × Result (Unit {0}))
      → Memᴰ row db.jobs
      → Memᴰ row r.0.jobs
      → Memᴰ row (commit db n r).0.jobs
  commit-mem db n (after, ok u) m k = k
  commit-mem db n (after, err e) m k = m
  commit-mem db n (after, panicked why) m k = m

  pub abort_interrupted_jobs-mem :
      (db : Database)
      → ((id : JobId) → count_where (has_id id) db.jobs ≤ 1)
      → is_in_flight row ≡ false
      → Memᴰ row db.jobs
      → Memᴰ row (abort_interrupted_jobs now_ms db).0.jobs
  unfolding abort_interrupted_jobs
  abort_interrupted_jobs-mem db unique rests m =
      let orphans = rows_where is_in_flight db.jobs in
      commit-mem db (length orphans) (interrupt_all orphans now_ms db) m
        (interrupt_all-mem orphans db (All-of_mem _ orphans spared) m)
    where
      spared : (o : JobRow) → Memᴰ o (rows_where is_in_flight db.jobs) → has_id o.id row ≡ false
      spared o k = elim (Bool-cases (has_id o.id row)) [
        | inr other ↦ other
        | inl same ↦
            let (queued, flies) = mem-rows_where is_in_flight db.jobs k in
            let eq : row ≡ o =
              count_where_unique (has_id o.id) db.jobs (unique o.id) m same queued (ground arith) in
            absurd (cc (flies, subst (λ r. is_in_flight r ≡ false) eq rests))
      ]
