-- ===== src/Db/Job/Sweep.antt =====
-- What the sweep at a restart does: crates/paavo-db/src/job.rs, `abort_interrupted_jobs`.
use paavo.Prelude.{
  ℕ, ◌-◌, ◌*◌, ◌^◌, min, map, Option, some, none, ◌≤◌, ◌<◌, ◌==◌, ◌≡◌, refl, sym, ap, ◌∙◌, subst,
  Bool, true, false, ◌&&◌, ◌||◌, List, [], ◌∷◌, ◌++◌, Memᴰ, head, tail, cases_cons, arith, All,
  All-mem, All-of_mem, Bool-cases, inl, inr, rows_where, count_where, update_where,
  length-rows_where, mem-rows_where, mem-rows_where_of, count_where_pos, count_where_unique,
  count_where-update-eq, update_where-twice, update_where-cong,
}
use mathlib.Core.List.{append-nil, append_assoc}
use paavo.Proto.Job.{JobId}
use paavo.Db.Store.{Database, JobRow, FrameRow, ok, fits_i64}
use paavo.Db.Job.{has_id}
use paavo.Db.Job.Queries.{next_seq, read_next_seq}
use paavo.Proto.Log.{warn}
use paavo.Db.Job.Restart.{
  is_in_flight, interrupted_frame, interrupted_ts_us, interrupt_with, interrupt_row, interrupt_one,
  interrupt_all, commit, abort_interrupted_jobs,
}

-- The next number of a job is above all that its frames have.
next_seq-fresh :
    (id : JobId) (n : ℕ) (fs : List FrameRow)
    → next_seq id fs ≤ n
    → count_where (λ (g : FrameRow). g.job_id == id && g.frame.seq == n) fs ≡ 0
unfolding next_seq count_where
next_seq-fresh id n [] h = refl
next_seq-fresh id n (f ∷ fs) h = ground (arith, next_seq-fresh id n fs)

abbrev mentioned : List JobRow → JobRow → Bool
mentioned [] row = false
mentioned (o ∷ os) row = has_id o.id row || mentioned os row

mentioned-of_mem : (os : List JobRow) (row : JobRow) → Memᴰ row os → mentioned os row ≡ true
mentioned-of_mem [] row m = elim m [ ]
mentioned-of_mem (o ∷ os) row m = elim (cases_cons m) [
  | inl e ↦ rw e (ground arith)
  | inr m' ↦ ground (arith, mentioned-of_mem os row m')
]

mem-of_mentioned :
    (os : List JobRow) (row : JobRow)
    → mentioned os row ≡ true
    → (o : JobRow) × Memᴰ o os × (has_id row.id o ≡ true)
mem-of_mentioned [] row h = cc
mem-of_mentioned (o ∷ os) row h = elim (Bool-cases (has_id o.id row)) [
  | inl here ↦ (o, head refl, ground (arith, here))
  | inr later ↦ let (p, m, e) = mem-of_mentioned os row (ground (arith, later)) in (p, tail m, e)
]

-- The log numbers of a job without those of another.
next_seq-other :
    (id : JobId) (fs : List FrameRow) (f : FrameRow)
    → (f.job_id == id) ≡ false
    → next_seq id (fs ++ f ∷ []) ≡ next_seq id fs
unfolding next_seq
next_seq-other id [] f other = rw other refl
next_seq-other id (g ∷ fs) f other = rw (next_seq-other id fs f other) refl

next_seq-le :
    (id : JobId) (n : ℕ) (fs : List FrameRow)
    → All (λ (f : FrameRow). f.frame.seq < n) fs
    → next_seq id fs ≤ n
unfolding next_seq
next_seq-le id n [] h = omega arith
next_seq-le id n (f ∷ fs) h = ground (arith, h.0, next_seq-le id n fs h.1)

-- Microseconds from the start of a job to the sweep, as a column can hold them.
abbrev elapsed_us : Option ℕ → ℕ → ℕ
elapsed_us none now_ms = 0
elapsed_us (some started_at) now_ms = min ((now_ms - started_at) * 1000) (2 ^ 63 - 1)

-- The last line of the log of a job that was in flight.
abbrev pub last_line : List FrameRow → ℕ → JobRow → FrameRow
last_line frames now_ms row = record {
  job_id = row.id;
  frame = record {
    seq = next_seq row.id frames;
    ts_us = elapsed_us row.started_at now_ms;
    level = warn;
    target = none;
    message =
        "job interrupted: paavod restarted while this job was in-flight; any output above is partial";
  };
}

interrupted_frame-last_line :
    (row : JobRow) (now_ms : ℕ) (frames : List FrameRow)
    → interrupted_frame row now_ms (next_seq row.id frames) ≡ last_line frames now_ms row
unfolding interrupted_ts_us
interrupted_frame-last_line row now_ms frames =
    ap
      (λ t. record {
        job_id = row.id;
        frame = record {
          seq = next_seq row.id frames;
          ts_us = t;
          level = warn;
          target = none;
          message =
              "job interrupted: paavod restarted while this job was in-flight; any output above is partial";
        };
      })
      (same row.started_at)
  where
    same : (s : Option ℕ) → interrupted_ts_us s now_ms ≡ elapsed_us s now_ms
    same none = refl
    same (some s) = refl

abbrev after_one : JobRow → ℕ → List FrameRow → Database → Database
after_one row now_ms base db = record db {
  frames = db.frames ++ last_line base now_ms row ∷ [];
  jobs = update_where (has_id row.id) (interrupt_row now_ms) db.jobs;
}

interrupt_with-eq :
    (row : JobRow) (now_ms n : ℕ) (db : Database)
    → 0 < count_where (has_id row.id) db.jobs
    → next_seq row.id db.frames ≤ n
    → interrupt_with row now_ms n db ≡ (
      record db {
        frames = db.frames ++ interrupted_frame row now_ms n ∷ [];
        jobs = update_where (has_id row.id) (interrupt_row now_ms) db.jobs;
      },
      ok tt,
    )
unfolding interrupt_with
interrupt_with-eq row now_ms n db present above =
    rw (next_seq-fresh row.id n db.frames above, nonzero present) refl
  where
    nonzero : {n : ℕ} → 0 < n → (n == 0) ≡ false
    nonzero {n} h = ground arith

-- One round, for a job that is in the table, and whose log has room.
interrupt_one-eq :
    (row : JobRow) (now_ms : ℕ) (base : List FrameRow) (db : Database)
    → 0 < count_where (has_id row.id) db.jobs
    → next_seq row.id db.frames ≡ next_seq row.id base
    → next_seq row.id base < 2 ^ 63
    → interrupt_one row now_ms db ≡ (after_one row now_ms base db, ok tt)
unfolding interrupt_one read_next_seq
interrupt_one-eq row now_ms base db present same room =
    let fits : fits_i64 (next_seq row.id base) ≡ true = ground (arith, room) in
    rw (same, fits)
      (interrupt_with-eq row now_ms (next_seq row.id base) db present (omega (arith, same))
        ∙ ap
            (λ f. (
              record db {
                frames = db.frames ++ f ∷ [];
                jobs = update_where (has_id row.id) (interrupt_row now_ms) db.jobs;
              },
              ok tt,
            ))
            (interrupted_frame-last_line row now_ms base))

abbrev IsRoomy : List FrameRow → List FrameRow → JobRow → Type 0
IsRoomy base frames row =
    (next_seq row.id frames ≡ next_seq row.id base) × (next_seq row.id base < 2 ^ 63)

abbrev HasDistinctIds : List JobRow → Type 0
HasDistinctIds [] = Unit
HasDistinctIds (row ∷ rows) =
    All (λ (o : JobRow). (row.id == o.id) ≡ false) rows × HasDistinctIds rows

record Swept (rows : List JobRow) (now_ms : ℕ) (base : List FrameRow) (before after : Database)
    : Type 0 where
  jobs : after.jobs ≡ update_where (mentioned rows) (interrupt_row now_ms) before.jobs
  frames : after.frames ≡ before.frames ++ map (last_line base now_ms) rows

Swept-one :
    (row : JobRow) (rows : List JobRow) (now_ms : ℕ) (base : List FrameRow) (db after : Database)
    → Swept rows now_ms base (after_one row now_ms base db) after
    → Swept (row ∷ rows) now_ms base db after
Swept-one row rows now_ms base db after s = record {
  jobs =
      s.jobs
      ∙ update_where-twice (interrupt_row now_ms) (has_id row.id) (mentioned rows) (λ x. refl)
          (λ x. same rows x) db.jobs;
  frames = s.frames ∙ append_assoc db.frames _ (map (last_line base now_ms) rows);
}
  where
    same : (os : List JobRow) (x : JobRow) → mentioned os (interrupt_row now_ms x) ≡ mentioned os x
    same [] x = refl
    same (o ∷ os) x = rw (same os x)

still-IsRoomy :
    (row : JobRow) (rows : List JobRow) (now_ms : ℕ) (base frames : List FrameRow)
    → All (λ (o : JobRow). (row.id == o.id) ≡ false) rows
    → All (IsRoomy base frames) rows
    → All (IsRoomy base (frames ++ last_line base now_ms row ∷ [])) rows
still-IsRoomy row [] now_ms base frames other h = tt
still-IsRoomy row (o ∷ os) now_ms base frames other h = (
  (next_seq-other o.id frames (last_line base now_ms row) other.0 ∙ h.0.0, h.0.1),
  still-IsRoomy row os now_ms base frames other.1 h.1,
)

interrupt_all-Swept :
    (rows : List JobRow) (now_ms : ℕ) (base : List FrameRow) (db : Database)
    → All (λ (o : JobRow). 0 < count_where (has_id o.id) db.jobs) rows
    → HasDistinctIds rows
    → All (IsRoomy base db.frames) rows
    → ((interrupt_all rows now_ms db).1 ≡ ok tt)
      × Swept rows now_ms base db (interrupt_all rows now_ms db).0
unfolding interrupt_all update_where
interrupt_all-Swept [] now_ms base db present distinct room =
    (refl, record { jobs = sym (untouched db.jobs); frames = sym (append-nil db.frames) })
  where
    untouched :
        (jobs : List JobRow) → update_where (mentioned []) (interrupt_row now_ms) jobs ≡ jobs
    untouched [] = refl
    untouched (j ∷ js) = rw (untouched js)
interrupt_all-Swept (row ∷ rows) now_ms base db present distinct room =
    let next = after_one row now_ms base db in
    let (done, s) =
      interrupt_all-Swept rows now_ms base next (still_present present.1) distinct.1
        (still-IsRoomy row rows now_ms base db.frames distinct.0 room.1) in
    let eq = interrupt_one-eq row now_ms base db present.0 room.0.0 room.0.1 in
    let stored : (interrupt_one row now_ms db).0 ≡ next = ap (λ r. r.0) eq in
    let fine : (interrupt_one row now_ms db).1 ≡ ok tt = ap (λ r. r.1) eq in
    (
      rw (fine, interrupt_all, stored) done,
      rw (fine, interrupt_all, stored)
          (Swept-one row rows now_ms base db (interrupt_all rows now_ms next).0 s),
    )
  where
    still_present :
        All (λ (o : JobRow). 0 < count_where (has_id o.id) db.jobs) rows
        → All
            (λ (o : JobRow). 0 < count_where (has_id o.id) (after_one row now_ms base db).jobs)
            rows
    still_present h = All-of_mem _ rows λ o m. omega (
      arith,
      All-mem _ rows h o m,
      count_where-update-eq (has_id o.id) (has_id row.id) (interrupt_row now_ms) (λ x _. refl)
          db.jobs,
    )

module _ (j : JobRow) (js : List JobRow)
    (unique : (id : JobId) → count_where (has_id id) (j ∷ js) ≤ 1) where
  fewer : (id : JobId) → count_where (has_id id) js ≤ 1
  unfolding count_where
  fewer id = ground (arith, unique id)

  apart : (o : JobRow) → Memᴰ o js → (j.id == o.id) ≡ false
  unfolding count_where
  apart o m = elim (Bool-cases (j.id == o.id)) [
    | inl same ↦
        absurd
          (ground (arith, unique j.id, count_where_pos (has_id j.id) js m (ground (arith, same))))
    | inr other ↦ other
  ]

distinct_rows :
    (p : JobRow → Bool) (jobs : List JobRow)
    → ((id : JobId) → count_where (has_id id) jobs ≤ 1)
    → HasDistinctIds (rows_where p jobs)
unfolding rows_where
distinct_rows p [] unique = tt
distinct_rows p (j ∷ js) unique =
    let rest = distinct_rows p js (fewer j js unique) in
    elim (Bool-cases (p j)) [
      | inl kept ↦ rw kept (
        All-of_mem _ (rows_where p js) (λ o m. apart j js unique o (mem-rows_where p js m).0),
        rest,
      )
      | inr gone ↦ rw gone rest
    ]

-- With distinct ids, and log numbers below 2^63 - 1, the sweep of a restart does not fail, aborts
-- exactly the jobs that were building or running, leaves the other rows, and appends to the log of
-- each, in the order of the rows, the warning that it was interrupted, with the next number of that
-- log and the time since the start of the job.
pub abort_interrupted_jobs-eq :
    (now_ms : ℕ) (db : Database)
    → ((id : JobId) → count_where (has_id id) db.jobs ≤ 1)
    → All (λ (f : FrameRow). f.frame.seq < 2 ^ 63 - 1) db.frames
    → let after = abort_interrupted_jobs now_ms db in
      (after.1 ≡ ok (count_where is_in_flight db.jobs))
      × (after.0.jobs ≡ update_where is_in_flight (interrupt_row now_ms) db.jobs)
      × (after.0.frames
          ≡ db.frames ++ map (last_line db.frames now_ms) (rows_where is_in_flight db.jobs))
unfolding abort_interrupted_jobs
abort_interrupted_jobs-eq now_ms db unique room =
    let orphans = rows_where is_in_flight db.jobs in
    let (done, s) =
      interrupt_all-Swept orphans now_ms db.frames db (All-of_mem _ orphans present)
        (distinct_rows is_in_flight db.jobs unique) (All-of_mem _ orphans roomy) in
    let counted = length-rows_where is_in_flight db.jobs in
    rw (done, commit)
      (
        ap ok counted,
        s.jobs
            ∙ update_where-cong (interrupt_row now_ms) (mentioned orphans) is_in_flight db.jobs
                exact,
        s.frames,
      )
  where
    roomy : (o : JobRow) → Memᴰ o (rows_where is_in_flight db.jobs) → IsRoomy db.frames db.frames o
    roomy o m = (refl, omega (arith, next_seq-le o.id (2 ^ 63 - 1) db.frames room))

    present :
        (o : JobRow)
        → Memᴰ o (rows_where is_in_flight db.jobs)
        → 0 < count_where (has_id o.id) db.jobs
    present o m =
        let (queued, t) = mem-rows_where is_in_flight db.jobs m in
        count_where_pos (has_id o.id) db.jobs queued (ground arith)

    exact :
        (row : JobRow)
        → Memᴰ row db.jobs
        → mentioned (rows_where is_in_flight db.jobs) row ≡ is_in_flight row
    exact row m = elim (Bool-cases (mentioned (rows_where is_in_flight db.jobs) row)) [
      | inl yes_it_is ↦
          let (o, at, e) = mem-of_mentioned (rows_where is_in_flight db.jobs) row yes_it_is in
          let (queued, t) = mem-rows_where is_in_flight db.jobs at in
          let same : row ≡ o =
            count_where_unique (has_id row.id) db.jobs (unique row.id) m (ground arith) queued e in
          yes_it_is ∙ sym (subst (λ r. is_in_flight r ≡ true) (sym same) t)
      | inr absent ↦ elim (Bool-cases (is_in_flight row)) [
        | inl flies ↦ absurd (
            cc (
              absent,
              mentioned-of_mem (rows_where is_in_flight db.jobs) row
                  (mem-rows_where_of is_in_flight db.jobs m flies),
            ))
        | inr rests ↦ absent ∙ sym rests
      ]
    ]
