-- ===== src/Daemon/LogSink/Complete.antt =====
-- No frame is lost between the live viewers and the store: crates/paavod/src/log_sink.rs.
use paavo.Prelude.{
  ℕ, suc, ◌+◌, ◌^◌, ◌≤◌, ◌<◌, ◌≡◌, refl, sym, ap, ◌∙◌, subst, Bool, true, false, if◌then◌else◌,
  String, Option, List, [], ◌∷◌, ◌++◌, length, map, take, drop, max, rows_where, ◌==◌, arith, All,
  count_where, Bool-cases, inl, inr, length-append,
}
use mathlib.Core.List.{append-nil, append_assoc}
use paavo.Proto.Job.{JobId}
use paavo.Proto.Log.{LogFrame, LogLevel}
use paavo.Db.Store.{Database, FrameRow, ok, fits_i64}
use paavo.Db.Job.{has_id}
use paavo.Db.Job.Queries.{next_seq, read_next_seq, next_log_seq}
use paavo.Db.Log.{row_of, frames_of, list}
use paavo.Db.Log.Batch.{IsContiguous, IsContiguous-append, append_batch-contiguous, frames_of-batch}
use paavo.Db.Log.Pages.{IsReadable, list-contiguous}
use paavo.Daemon.LogSink.{
  FrameSink, new, flush, push, tick, finish, buffered, next_frame, is_empty, is_interval_over,
  start_seq, Phase, opened, pushed, ticked, elsewhere,
}

-- The store and the batch together hold what was published, numbered from 0 without a gap.
pub record IsComplete (s : FrameSink) : Type 0 where
  pub known : 0 < count_where (has_id s.job_id) s.db.jobs
  pub whole : s.published ≡ frames_of s.job_id s.db.frames ++ s.batch
  pub contiguous : IsContiguous 0 s.published
  pub next : s.seq ≡ length s.published

flush-stores :
    (now : ℕ) (s : FrameSink)
    → IsComplete s
    → (flush now s).db ≡ record s.db { frames = s.db.frames ++ map (row_of s.job_id) s.batch }
unfolding flush
flush-stores now s i =
    ap (λ r. r.0)
      (append_batch-contiguous s.job_id s.batch (frames_of s.job_id s.db.frames) s.db i.known refl
        (subst (IsContiguous 0) i.whole i.contiguous))

flush-frames :
    (now : ℕ) (s : FrameSink)
    → IsComplete s
    → frames_of s.job_id (flush now s).db.frames ≡ s.published
flush-frames now s i =
    ap (λ db. frames_of s.job_id db.frames) (flush-stores now s i)
    ∙ (frames_of-batch s.job_id s.batch s.db.frames ∙ sym i.whole)

flush-IsComplete : (now : ℕ) (s : FrameSink) → IsComplete s → IsComplete (flush now s)
unfolding flush
flush-IsComplete now s i = record {
  known =
      subst (λ db. 0 < count_where (has_id s.job_id) db.jobs) (sym (flush-stores now s i)) i.known;
  whole = sym (append-nil _ ∙ flush-frames now s i);
  contiguous = i.contiguous;
  next = i.next;
}

buffered-IsComplete :
    (level : LogLevel) (target : Option String) (message : String) (now : ℕ) (s : FrameSink)
    → s.seq < 2 ^ 63
    → IsComplete s
    → IsComplete (buffered level target message now s)
buffered-IsComplete level target message now s small i =
    let f = next_frame level target message now s in
    record {
      known = i.known;
      whole =
          ap (λ fs. fs ++ f ∷ []) i.whole
          ∙ append_assoc (frames_of s.job_id s.db.frames) s.batch (f ∷ []);
      contiguous =
          IsContiguous-append 0 s.published (f ∷ []) i.contiguous (omega (arith, i.next), tt);
      next = omega (arith, i.next, length-append s.published (f ∷ []));
    }

flushed_if-IsComplete :
    (b : Bool) (now : ℕ) (s : FrameSink) → IsComplete s → IsComplete (if b then flush now s else s)
flushed_if-IsComplete true now s i = flush-IsComplete now s i
flushed_if-IsComplete false now s i = i

push-IsComplete :
    (level : LogLevel) (target : Option String) (message : String) (now : ℕ) (s : FrameSink)
    → s.seq < 2 ^ 63
    → IsComplete s
    → IsComplete (push level target message now s)
unfolding push
push-IsComplete level target message now s small i =
    flushed_if-IsComplete _ now _ (buffered-IsComplete level target message now s small i)

tick-IsComplete : (now : ℕ) (s : FrameSink) → IsComplete s → IsComplete (tick now s)
unfolding tick
tick-IsComplete now s i =
    elim s.batch
      as (λ fs.
        IsComplete (if is_empty fs then s else if is_interval_over now s then flush now s else s)) [
          | [] ↦ i
          | _ ∷ _ ↦ flushed_if-IsComplete _ now s i
        ]

Phase-IsComplete : {s t : FrameSink} → Phase s t → IsComplete s → IsComplete t
Phase-IsComplete opened i = i
Phase-IsComplete (pushed {t} level target message now before small) i =
    push-IsComplete level target message now t small (Phase-IsComplete before i)
Phase-IsComplete (ticked {t} now before) i = tick-IsComplete now t (Phase-IsComplete before i)
Phase-IsComplete (elsewhere {t} db before same known) i =
    let c = Phase-IsComplete before i in
    record {
      known = known;
      whole = c.whole ∙ ap (λ fs. fs ++ t.batch) (sym same);
      contiguous = c.contiguous;
      next = c.next;
    }

-- The number after those of frames that count up from `n`, and 0 if there are none.
abbrev after : ℕ → List LogFrame → ℕ
after n [] = 0
after n (f ∷ fs) = suc (n + length fs)

max-after :
    (n seq rest : ℕ) (fs : List LogFrame)
    → seq ≡ n
    → rest ≡ after (suc n) fs
    → max (suc seq) rest ≡ suc (n + length fs)
max-after n seq rest [] e h = omega (arith, e, h)
max-after n seq rest (f ∷ fs) e h = omega (arith, e, h)

next_seq-contiguous :
    (id : JobId) (n : ℕ) (rows : List FrameRow)
    → IsContiguous n (frames_of id rows)
    → next_seq id rows ≡ after n (frames_of id rows)
unfolding next_seq rows_where
next_seq-contiguous id n [] h = refl
next_seq-contiguous id n (r ∷ rows) h = elim (Bool-cases (r.job_id == id)) [
  | inl own ↦
      let (first, rest) = (rw own at h) in
      rw own (
        max-after n r.frame.seq (next_seq id rows) (frames_of id rows) first
          (next_seq-contiguous id (suc n) rows rest))
  | inr foreign ↦ rw foreign (next_seq-contiguous id n rows (rw foreign at h))
]

after-zero : (fs : List LogFrame) → after 0 fs ≡ length fs
after-zero [] = refl
after-zero (f ∷ fs) = omega arith

finish-frames :
    (now : ℕ) (s : FrameSink)
    → IsComplete s
    → frames_of s.job_id (finish now s).db.frames ≡ s.published
unfolding finish
finish-frames now s i =
    elim s.batch
        as (λ fs.
          s.published ≡ frames_of s.job_id s.db.frames ++ fs
          → frames_of s.job_id (if is_empty fs then s else flush now s).db.frames ≡ s.published) [
            | [] ↦ λ e. sym (e ∙ append-nil _)
            | _ ∷ _ ↦ λ e. flush-frames now s i
          ]
      i.whole

finish-known :
    (now : ℕ) (s : FrameSink)
    → IsComplete s
    → 0 < count_where (has_id s.job_id) (finish now s).db.jobs
unfolding finish
finish-known now s i =
    elim s.batch
      as (λ fs.
        0 < count_where (has_id s.job_id) (if is_empty fs then s else flush now s).db.jobs) [
          | [] ↦ i.known
          | _ ∷ _ ↦ (flush-IsComplete now s i).known
        ]

-- The number that the next phase starts at, while numbers fit their column.
start_seq-eq :
    (id : JobId) (db : Database) (n : ℕ)
    → next_seq id db.frames ≡ n
    → n < 2 ^ 63
    → start_seq id db ≡ n
unfolding start_seq next_log_seq read_next_seq
start_seq-eq id db n e room =
    let fits : fits_i64 n ≡ true = ground (arith, room) in rw (e, fits) refl

-- If a phase starts with the store and the batch of its sink holding what was published, numbered
-- from 0 without a gap, then, with fewer than 2^63 frames published, the sink of the next phase,
-- numbered from the next log number of the job, starts so as well.
pub new-IsComplete :
    (now later : ℕ) {s t : FrameSink}
    → IsComplete s
    → Phase s t
    → length t.published < 2 ^ 63
    → IsComplete
        (new t.job_id (start_seq t.job_id (finish now t).db) later t.published (finish now t).db)
unfolding new
new-IsComplete now later {s} {t} i phase room =
    let c = Phase-IsComplete phase i in
    let stored = finish-frames now t c in
    let numbered : next_seq t.job_id (finish now t).db.frames ≡ length t.published =
      next_seq-contiguous t.job_id 0 (finish now t).db.frames
        (subst (IsContiguous 0) (sym stored) c.contiguous)
      ∙ (ap (after 0) stored ∙ after-zero t.published) in
    record {
      known = finish-known now t c;
      whole = sym (append-nil _ ∙ stored);
      contiguous = c.contiguous;
      next = start_seq-eq t.job_id (finish now t).db (length t.published) numbered room;
    }

-- If a sink starts with the store and its batch holding what was published, numbered from 0 without
-- a gap, then after a phase in which others leave the job and its frames, and which publishes at
-- most 2^63 frames that fit their columns, every page of the stored log is that page of what live
-- viewers were shown.
pub finish-lists :
    (now offset limit : ℕ) {s t : FrameSink}
    → IsComplete s
    → Phase s t
    → length t.published ≤ 2 ^ 63
    → All IsReadable t.published
    → list t.job_id offset limit (finish now t).db ≡ ok (take limit (drop offset t.published))
finish-lists now offset limit {s} {t} i phase small readable =
    let c = Phase-IsComplete phase i in
    (list-contiguous t.job_id offset limit t.published (finish now t).db (finish-frames now t c)
      c.contiguous small readable).0
