-- ===== src/Daemon/Nightly/Fires.antt =====
-- What a nightly run leaves: crates/paavod/src/cron.rs.
use paavo.Prelude.{
  ℕ, ◌+◌, ltb, ◌≡◌, refl, sym, ap, ◌∙◌, subst, true, false, String, Option, none, some, List, [],
  ◌∷◌, ◌++◌, arith, inl, inr, All, All-append, length, length-append, str_eq→eq, find_where-some,
}
use mathlib.Core.List.{append-nil, append_assoc}
use paavo.Proto.Job.{scheduled, scheduler, submitted}
use paavo.Proto.Board.{BoardSpec}
use paavo.Db.Store.{Database, JobRow, ScheduleRow}
use paavo.Db.Job.Moves.{new_row}
use paavo.Db.Schedule.{upsert, apply_update}
use paavo.Db.Schedule.Kept.{row_of, upserted, upsert-row, apply_update-row}
use paavo.Core.Enqueue.Admission.{enqueue_job-cases}
use paavo.Daemon.State.{Daemon}
use paavo.Daemon.Nightly.{
  Crate, SubDir, skipped, crate_dir, CorpusEntry, NightlyConfig, request_of, enqueue_tar,
  enqueue_one_crate, counted, enqueue_subdirs, enqueue_corpus_entry, enqueue_corpus, nightly_row,
  stamp_if, run_nightly_corpus,
}

-- A row as the nightly run submits it.
abbrev pub IsNightly : JobRow → Type 0
IsNightly row = (row.priority ≡ scheduled) × (row.source ≡ scheduler) × (row.state ≡ submitted)

abbrev pub with_jobs : Database → List JobRow → Database
with_jobs db jobs = record db { jobs = jobs }

-- Rows are added to the job table, as many as are counted, and nothing else changes.
abbrev pub Adds : Database → Database × ℕ → List JobRow → Type 0
Adds db (after, n) rows =
    (after ≡ with_jobs db (db.jobs ++ rows)) × (length rows ≡ n) × All IsNightly rows

abbrev pub SomeRows : Database → Database × ℕ → Type 0
SomeRows db r = (rows : List JobRow) × Adds db r rows

Adds-none : (db : Database) → Adds db (db, 0) []
Adds-none db = (ap (with_jobs db) (sym (append-nil db.jobs)), refl, tt)

Adds-seq :
    (db : Database) (first : Database × ℕ) (rows : List JobRow) (rest : Database → Database × ℕ)
    → Adds db first rows
    → ((store : Database) → SomeRows store (rest store))
    → SomeRows db ((rest first.0).0, first.1 + (rest first.0).1)
Adds-seq db (after, n) rows rest (e, k, fit) then_rows =
    let (more, (f, l, fits)) = then_rows after in
    (
      rows ++ more,
      (
        f
            ∙ (ap (λ s. with_jobs s (s.jobs ++ more)) e
                ∙ ap (with_jobs db) (append_assoc db.jobs rows more)),
        omega (arith, length-append rows more, k, l),
        All-append IsNightly rows more fit fits,
      ),
    )

module _ (cfg : NightlyConfig) (inventory : List BoardSpec) where
  enqueue_tar-Adds :
      (entry : CorpusEntry) (c : Crate) (tar : Option String) (db : Database)
      (rest : Database → Database × ℕ)
      → ((store : Database) → SomeRows store (rest store))
      → SomeRows db (counted (enqueue_tar cfg inventory entry c tar db) rest)
  unfolding request_of
  enqueue_tar-Adds entry c none db rest then_rows = then_rows db
  enqueue_tar-Adds entry c (some blake) db rest then_rows =
      elim (enqueue_job-cases inventory (request_of cfg entry c blake) c.now_ms db) [
        | inl (fits, e) ↦
            let row = new_row (request_of cfg entry c blake).new c.now_ms in
            let (rows, (f, l, fit)) =
              Adds-seq db (with_jobs db (db.jobs ++ row ∷ []), 1) (row ∷ []) rest
                (refl, omega arith, ((refl, refl, refl), tt)) then_rows in
            rw e (rows, (f, omega (arith, l), fit))
        | inr (misfit, (why, e)) ↦ rw e (then_rows db)
      ]

  enqueue_subdirs-Adds :
      (entry : CorpusEntry) (subs : List SubDir) (db : Database)
      → SomeRows db (enqueue_subdirs cfg inventory entry subs db)
  unfolding enqueue_subdirs enqueue_one_crate
  enqueue_subdirs-Adds entry [] db = ([], Adds-none db)
  enqueue_subdirs-Adds entry (skipped ∷ subs) db = enqueue_subdirs-Adds entry subs db
  enqueue_subdirs-Adds entry (crate_dir c ∷ subs) db =
      enqueue_tar-Adds entry c c.tar db (enqueue_subdirs cfg inventory entry subs)
        (enqueue_subdirs-Adds entry subs)

  enqueue_corpus_entry-Adds :
      (entry : CorpusEntry) (listing : Option (List SubDir)) (db : Database)
      → SomeRows db (enqueue_corpus_entry cfg inventory entry listing db)
  enqueue_corpus_entry-Adds entry none db = ([], Adds-none db)
  enqueue_corpus_entry-Adds entry (some subs) db = enqueue_subdirs-Adds entry subs db

  enqueue_corpus-Adds :
      (entries : List CorpusEntry) (db : Database)
      → SomeRows db (enqueue_corpus cfg inventory entries db)
  unfolding enqueue_corpus
  enqueue_corpus-Adds [] db = ([], Adds-none db)
  enqueue_corpus-Adds (entry ∷ entries) db =
      let (rows, adds) = enqueue_corpus_entry-Adds entry entry.listing db in
      Adds-seq db (enqueue_corpus_entry cfg inventory entry entry.listing db) rows
        (enqueue_corpus cfg inventory entries) adds (enqueue_corpus-Adds entries)

-- The time of the last completion, if any job went in.
abbrev pub completed_at : List JobRow → ℕ → Option ℕ → Option ℕ
completed_at [] now_ms old = old
completed_at (row ∷ rows) now_ms old = some now_ms

abbrev pub old_completion : Option ScheduleRow → Option ℕ
old_completion none = none
old_completion (some row) = row.last_completed_at

module _ (cfg : NightlyConfig) (now_ms completed_ms : ℕ) where
  -- What the table of schedules says after a run.
  abbrev pub nightly_after : Option ScheduleRow → List JobRow → ScheduleRow
  nightly_after old rows = record {
    id = "nightly";
    cron = cfg.nightly_cron;
    enabled = true;
    last_triggered_at = some now_ms;
    last_completed_at = completed_at rows completed_ms (old_completion old);
  }

  abbrev Stamped : List JobRow → ScheduleRow → Database → Database → Type 0
  Stamped rows old db after =
      (row_of "nightly" after
        ≡ some (record old {
          last_completed_at = completed_at rows completed_ms old.last_completed_at;
        }))
      × (after.jobs ≡ db.jobs)

  completes_jobs :
      (db : Database)
      → (apply_update "nightly"
          (record { last_triggered_at = none; last_completed_at = some completed_ms })
          db).0.jobs
        ≡ db.jobs
  unfolding apply_update
  completes_jobs db = refl

  upsert-jobs : (s : ScheduleRow) (db : Database) → (upsert s db).0.jobs ≡ db.jobs
  unfolding upsert
  upsert-jobs s db = ground arith

  stamp_if-Stamped :
      (rows : List JobRow) (n : ℕ) (db : Database) (old : ScheduleRow)
      → length rows ≡ n
      → row_of "nightly" db ≡ some old
      → Stamped rows old db (stamp_if n completed_ms db)
  stamp_if-Stamped [] n db old l e =
      subst (λ k. Stamped [] old db (stamp_if k completed_ms db)) l (e, refl)
  stamp_if-Stamped (row ∷ rows) n db old l e =
      let some_in : ltb 0 n ≡ true = ground (arith, l) in
      rw some_in (apply_update-row "nightly" _ db e, completes_jobs db)

  upserted-nightly :
      (o : Option ScheduleRow)
      → ((row : ScheduleRow) → o ≡ some row → row.id ≡ "nightly")
      → upserted (nightly_row cfg (some now_ms)) o
        ≡ record (nightly_row cfg (some now_ms)) { last_completed_at = old_completion o }
  upserted-nightly none named = refl
  upserted-nightly (some row) named =
      ap
        (λ id. record (nightly_row cfg (some now_ms)) {
          id = id;
          last_completed_at = row.last_completed_at;
        })
        (named row refl)

  -- When the daemon is not draining, a nightly run adds submitted scheduled jobs at the end of the
  -- job table and changes no other, and stamps its schedule as triggered, and as completed exactly
  -- if it added a job, keeping the older completion otherwise.
  pub run_nightly_corpus_lem :
      (d : Daemon)
      → d.draining ≡ false
      → (rows : List JobRow) × ((run_nightly_corpus cfg now_ms completed_ms d).db.jobs
          ≡ d.db.jobs ++ rows)
        × All IsNightly rows
        × (row_of "nightly" (run_nightly_corpus cfg now_ms completed_ms d).db
            ≡ some (nightly_after (row_of "nightly" d.db) rows))
  unfolding run_nightly_corpus
  run_nightly_corpus_lem d going =
      let triggered = (upsert (nightly_row cfg (some now_ms)) d.db).0 in
      let r = enqueue_corpus cfg d.inventory cfg.corpus triggered in
      let (rows, (e, l, fit)) = enqueue_corpus-Adds cfg d.inventory cfg.corpus triggered in
      let named : (row : ScheduleRow) → row_of "nightly" d.db ≡ some row → row.id ≡ "nightly" =
        λ row h. str_eq→eq row.id "nightly" (find_where-some _ d.db.schedules h).1 in
      let old = record (nightly_row cfg (some now_ms)) {
        last_completed_at = old_completion (row_of "nightly" d.db);
      } in
      let there : row_of "nightly" r.0 ≡ some old =
        ap (row_of "nightly") e
        ∙ (upsert-row (nightly_row cfg (some now_ms)) d.db
            ∙ ap some (upserted-nightly (row_of "nightly" d.db) named)) in
      let (row, jobs) = stamp_if-Stamped rows r.1 r.0 old l there in
      rw going (
        rows,
        jobs
            ∙ (ap (λ db. db.jobs) e
                ∙ ap (λ js. js ++ rows) (upsert-jobs (nightly_row cfg (some now_ms)) d.db)),
        fit,
        row,
      )
