-- ===== src/Db/Log/Batch.antt =====
-- Batches whose sequence numbers go on where those of the job end: crates/paavo-db/src/log.rs.
use paavo.Prelude.{
  ℕ, suc, ◌+◌, ◌≤◌, ◌<◌, ◌≡◌, refl, sym, ap, ◌∙◌, subst, ◌==◌, List, [], ◌∷◌, ◌++◌, map, arith, All,
  All-append, rows_where, count_where, length, Bool-cases, inl, inr,
}
use mathlib.Core.List.{append-nil, append_assoc}
use paavo.Proto.Job.{JobId}
use paavo.Proto.Log.{LogFrame}
use paavo.Db.Store.{Database, JobRow, FrameRow, ok}
use paavo.Db.Job.{has_id}
use paavo.Db.Job.Restart.{same_key}
use paavo.Db.Log.{row_of, frames_of, insert_all, append_batch}

-- The sequence numbers count up from the given one.
abbrev pub IsContiguous : ℕ → List LogFrame → Type 0
IsContiguous n [] = Unit
IsContiguous n (f ∷ fs) = (f.seq ≡ n) × IsContiguous (suc n) fs

pub IsContiguous-append :
    (n : ℕ) (fs gs : List LogFrame)
    → IsContiguous n fs
    → IsContiguous (n + length fs) gs
    → IsContiguous n (fs ++ gs)
IsContiguous-append n [] gs hf hg = subst (λ k. IsContiguous k gs) (omega arith) hg
IsContiguous-append n (f ∷ fs) gs hf hg =
    (hf.0, IsContiguous-append (suc n) fs gs hf.1 (subst (λ k. IsContiguous k gs) (omega arith) hg))

pub IsContiguous-split :
    (n : ℕ) (fs gs : List LogFrame)
    → IsContiguous n (fs ++ gs)
    → IsContiguous n fs × IsContiguous (n + length fs) gs
IsContiguous-split n [] gs h = (tt, subst (λ k. IsContiguous k gs) (omega arith) h)
IsContiguous-split n (f ∷ fs) gs h =
    let (left, right) = IsContiguous-split (suc n) fs gs h.1 in
    ((h.0, left), subst (λ k. IsContiguous k gs) (omega arith) right)

pub frames_of-append :
    (id : JobId) (rows more : List FrameRow)
    → frames_of id (rows ++ more) ≡ frames_of id rows ++ frames_of id more
unfolding rows_where
frames_of-append id [] more = refl
frames_of-append id (r ∷ rows) more = ground (arith, frames_of-append id rows more)

pub frames_of-map : (id : JobId) (fs : List LogFrame) → frames_of id (map (row_of id) fs) ≡ fs
unfolding rows_where
frames_of-map id [] = refl
frames_of-map id (f ∷ fs) = ground (arith, frames_of-map id fs)

abbrev pub Below : ℕ → LogFrame → Type 0
Below n f = f.seq < n

module _ (id : JobId) where
  -- No frame of the job has a sequence number from `n` on.
  abbrev pub AllBelow : ℕ → List FrameRow → Type 0
  AllBelow n rows = All (Below n) (frames_of id rows)

  fresh-count :
      (n : ℕ) (f : LogFrame) (rows : List FrameRow)
      → f.seq ≡ n
      → AllBelow n rows
      → count_where (same_key (row_of id f)) rows ≡ 0
  unfolding count_where rows_where
  fresh-count n f [] e below = refl
  fresh-count n f (r ∷ rows) e below = elim (Bool-cases (r.job_id == id)) [
    | inl own ↦
        let (first, rest) = (rw own at below) in
        ground (arith, own, e, first, fresh-count n f rows e rest)
    | inr foreign ↦ ground (arith, foreign, fresh-count n f rows e (rw foreign at below))
  ]

  Below-mono : (m n : ℕ) (fs : List LogFrame) → m ≤ n → All (Below m) fs → All (Below n) fs
  Below-mono m n [] le h = tt
  Below-mono m n (f ∷ fs) le h = (omega (arith, h.0, le), Below-mono m n fs le h.1)

  pub Below-contiguous :
      (n : ℕ) (fs : List LogFrame) → IsContiguous n fs → All (Below (n + length fs)) fs
  Below-contiguous n [] h = tt
  Below-contiguous n (f ∷ fs) h = (
    omega (arith, h.0),
    Below-mono (suc n + length fs) (n + suc (length fs)) fs (omega arith)
        (Below-contiguous (suc n) fs h.1),
  )

  snoc-AllBelow :
      (n : ℕ) (f : LogFrame) (rows : List FrameRow)
      → f.seq ≡ n
      → AllBelow n rows
      → AllBelow (suc n) (rows ++ row_of id f ∷ [])
  unfolding rows_where
  snoc-AllBelow n f rows e below = rw (frames_of-append id rows (row_of id f ∷ [])) (
      All-append (Below (suc n)) (frames_of id rows) _
        (Below-mono n (suc n) (frames_of id rows) (omega arith) below)
        (subst (All (Below (suc n))) (sym (frames_of-map id (f ∷ []))) (omega (arith, e), tt)))

  pub insert_all-fresh :
      (n : ℕ) (jobs : List JobRow) (fs : List LogFrame) (rows : List FrameRow)
      → 0 < count_where (has_id id) jobs
      → AllBelow n rows
      → IsContiguous n fs
      → insert_all id jobs fs rows ≡ ok (rows ++ map (row_of id) fs)
  unfolding insert_all
  insert_all-fresh n jobs [] rows there below fresh = rw append-nil refl
  insert_all-fresh n jobs (f ∷ fs) rows there below fresh =
      let next =
        insert_all-fresh (suc n) jobs fs (rows ++ row_of id f ∷ []) there
          (snoc-AllBelow n f rows fresh.0 below) fresh.1 in
      rw (fresh-count n f rows fresh.0 below)
        (ground (arith, there, next, append_assoc rows (row_of id f ∷ []) (map (row_of id) fs)))

  -- A batch that goes on where the job's frames end is appended.
  pub append_batch-contiguous :
      (fs old : List LogFrame) (db : Database)
      → 0 < count_where (has_id id) db.jobs
      → frames_of id db.frames ≡ old
      → IsContiguous 0 (old ++ fs)
      → append_batch id fs db ≡ (record db { frames = db.frames ++ map (row_of id) fs }, ok tt)
  unfolding append_batch
  append_batch-contiguous fs old db there e h =
      let (before, after) = IsContiguous-split 0 old fs h in
      let below = subst (All (Below (0 + length old))) (sym e) (Below-contiguous 0 old before) in
      rw (insert_all-fresh (0 + length old) db.jobs fs db.frames there below after) refl

  pub frames_of-batch :
      (fs : List LogFrame) (rows : List FrameRow)
      → frames_of id (rows ++ map (row_of id) fs) ≡ frames_of id rows ++ fs
  frames_of-batch fs rows =
      frames_of-append id rows (map (row_of id) fs)
      ∙ ap (λ gs. frames_of id rows ++ gs) (frames_of-map id fs)
