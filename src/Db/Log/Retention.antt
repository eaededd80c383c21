-- ===== src/Db/Log/Retention.antt =====
-- `truncate_old_passed` of crates/paavo-db/src/log.rs: what the sweep drops.
use paavo.Prelude.{
  ℕ, ◌+◌, ◌≡◌, refl, ap, ◌∙◌, Bool, true, false, ◌&&◌, not, some, List, [], ◌∷◌, arith, rows_where,
  count_where, delete_where, Bool-cases, inl, inr, length, ◌==◌, ltb,
}
use paavo.Proto.Job.{JobId}
use paavo.Proto.Log.{LogFrame}
use paavo.Db.Store.{Database, JobRow, FrameRow, ok}
use paavo.Db.Job.{has_id}
use paavo.Db.Log.{frames_of, is_chatter, is_old_pass, is_expired, truncate_old_passed}

module _ {ℓ} {A : Type ℓ} (p : A → Bool) where
  length-delete_where : (xs : List A) → length (delete_where p xs) + count_where p xs ≡ length xs
  unfolding delete_where count_where
  length-delete_where [] = refl
  length-delete_where (x ∷ xs) = ground (arith, length-delete_where xs)

-- What is left of one job's log.
abbrev pub kept : Bool → List LogFrame → List LogFrame
kept true fs = rows_where (λ f. not (is_chatter f.level)) fs
kept false fs = fs

abbrev pub is_old_job : ℕ → ℕ → JobId → List JobRow → Bool
is_old_job days now_ms id jobs =
    ltb 0 (count_where (λ row. has_id id row && is_old_pass days now_ms row) jobs)

module _ (days now_ms : ℕ) (jobs : List JobRow) (id : JobId) where
  expired-own :
      (r : FrameRow) (b : Bool)
      → r.job_id ≡ id
      → is_old_job days now_ms id jobs ≡ b
      → is_expired days now_ms jobs r ≡ (is_chatter r.frame.level && b)
  expired-own r b own e =
      ap (λ j. is_chatter r.frame.level && is_old_job days now_ms j jobs) own
      ∙ ap (λ c. is_chatter r.frame.level && c) e

  kept-frames :
      (b : Bool) (rows : List FrameRow)
      → is_old_job days now_ms id jobs ≡ b
      → frames_of id (delete_where (is_expired days now_ms jobs) rows) ≡ kept b (frames_of id rows)
  unfolding delete_where rows_where
  kept-frames true [] e = refl
  kept-frames false [] e = refl
  kept-frames b (r ∷ rows) e = elim (Bool-cases (r.job_id == id)) [
    | inl own ↦ own-case b (is_chatter r.frame.level) own refl e (kept-frames b rows e)
    | inr foreign ↦ elim (Bool-cases (is_expired days now_ms jobs r)) [
      | inl gone ↦ rw (gone, foreign) (kept-frames b rows e)
      | inr here ↦ rw (here, foreign) (kept-frames b rows e)
    ]
  ]
    where
      gone :
          (b c : Bool)
          → (r.job_id == id) ≡ true
          → is_chatter r.frame.level ≡ c
          → is_old_job days now_ms id jobs ≡ b
          → is_expired days now_ms jobs r ≡ (c && b)
      gone b c own level e = expired-own r b (ground arith) e ∙ ap (λ d. d && b) level

      own-case :
          (b c : Bool)
          → (r.job_id == id) ≡ true
          → is_chatter r.frame.level ≡ c
          → is_old_job days now_ms id jobs ≡ b
          → frames_of id (delete_where (is_expired days now_ms jobs) rows)
            ≡ kept b (frames_of id rows)
          → frames_of id (delete_where (is_expired days now_ms jobs) (r ∷ rows))
            ≡ kept b (frames_of id (r ∷ rows))
      own-case true true own level e ih = rw (gone true true own level e, own, level) ih
      own-case false true own level e ih =
          rw (gone false true own level e, own) (ap (λ fs. r.frame ∷ fs) ih)
      own-case true false own level e ih =
          rw (gone true false own level e, own, level) (ap (λ fs. r.frame ∷ fs) ih)
      own-case false false own level e ih =
          rw (gone false false own level e, own) (ap (λ fs. r.frame ∷ fs) ih)

-- The sweep drops the trace, debug and info frames of jobs that passed longer ago than the days
-- given, keeps every other frame in its order, and answers how many went.
pub truncate_old_passed_lem :
    (days now_ms : ℕ) (db : Database) (id : JobId)
    → (frames_of id (truncate_old_passed (some days) now_ms db).0.frames
        ≡ kept (is_old_job days now_ms id db.jobs) (frames_of id db.frames))
      × ((n : ℕ) × ((truncate_old_passed (some days) now_ms db).1 ≡ ok n)
          × (length (truncate_old_passed (some days) now_ms db).0.frames + n ≡ length db.frames))
unfolding truncate_old_passed
truncate_old_passed_lem days now_ms db id = (
  kept-frames days now_ms db.jobs id (is_old_job days now_ms id db.jobs) db.frames refl,
  (
    count_where (is_expired days now_ms db.jobs) db.frames,
    refl,
    length-delete_where (is_expired days now_ms db.jobs) db.frames,
  ),
)
