-- ===== src/Daemon/Stream/History.antt =====
-- The historical part of a stream: crates/paavod/src/routes/jobs.rs, `historical_lines`.
use paavo.Prelude.{
  ℕ, zero, suc, ◌+◌, ◌-◌, ◌*◌, ◌/◌, ◌^◌, ◌≤◌, ◌<◌, min, ltb, ◌≡◌, refl, sym, ap, ◌∙◌, true, false,
  Option, some, none, List, [], ◌∷◌, ◌++◌, map, take, drop, length, take_all, arith, All,
  Bool-cases, inl, inr,
}
use mathlib.Core.List.{append-nil, map-append}
use paavo.Proto.Job.{JobId, JobOutcome, is_terminal}
use paavo.Proto.Log.{LogFrame}
use paavo.Db.Store.{Database, JobRow, ok}
use paavo.Db.Job.Queries.{find}
use paavo.Db.Log.{frames_of, list}
use paavo.Db.Log.Batch.{IsContiguous}
use paavo.Db.Log.Pages.{IsReadable, list-contiguous}
use paavo.Daemon.Stream.{
  WireMessage, page_size, saturating_add, frames_then, after_page, historical_from,
  historical_lines, Readings, streamed, stream_job,
}

add_suc : (m n : ℕ) → suc (m + n) ≡ suc m + n
add_suc m n = omega arith

below-page : (n left : ℕ) → n ≡ min page_size left → ltb n page_size ≡ true → left ≤ page_size
below-page n left e short = ground arith

pub full-page : (n left : ℕ) → n ≡ min page_size left → ltb n page_size ≡ false → page_size ≤ left
full-page n left e full = ground arith

module _ {ℓ} {A : Type ℓ} where
  take-drop : (n : ℕ) (xs : List A) → take n xs ++ drop n xs ≡ xs
  take-drop zero xs = refl
  take-drop (suc n) [] = refl
  take-drop (suc n) (x ∷ xs) = ap (◌∷◌ x) (take-drop n xs)

  pub length-drop : (n : ℕ) (xs : List A) → length (drop n xs) ≡ length xs - n
  length-drop zero xs = omega arith
  length-drop (suc n) [] = omega arith
  length-drop (suc n) (x ∷ xs) = omega (arith, length-drop n xs)

  pub length-take : (n : ℕ) (xs : List A) → length (take n xs) ≡ min n (length xs)
  length-take zero xs = omega arith
  length-take (suc n) [] = omega arith
  length-take (suc n) (x ∷ xs) = omega (arith, length-take n xs)

  drop-nil : (n : ℕ) → drop {A = A} n [] ≡ []
  drop-nil zero = refl
  drop-nil (suc n) = refl

  drop-drop : (m n : ℕ) (xs : List A) → drop n (drop m xs) ≡ drop (m + n) xs
  drop-drop zero n xs = ap (λ k. drop k xs) (omega arith)
  drop-drop (suc m) n [] = drop-nil n ∙ sym (drop-nil (suc m + n))
  drop-drop (suc m) n (x ∷ xs) = drop-drop m n xs ∙ ap (λ k. drop k (x ∷ xs)) (add_suc m n)

after_page-short :
    (chunk : List LogFrame) (rest : Option (List WireMessage))
    → ltb (length chunk) page_size ≡ true
    → after_page (ok chunk) rest ≡ some (frames_then chunk [])
after_page-short chunk none e = rw e refl
after_page-short chunk (some lines) e = rw e refl

frames_then-drop :
    (k : ℕ) (fs : List LogFrame)
    → frames_then (take page_size (drop k fs)) (map WireMessage.frame (drop (k + page_size) fs))
      ≡ map WireMessage.frame (drop k fs)
frames_then-drop k fs =
    sym (map-append WireMessage.frame (take page_size (drop k fs)) (drop (k + page_size) fs))
    ∙ ap (map WireMessage.frame) (
        ap (λ gs. take page_size (drop k fs) ++ gs) (sym (drop-drop k page_size fs))
        ∙ take-drop page_size (drop k fs))

module _ (id : JobId) (fs : List LogFrame) (store : ℕ → Database)
    (stored : (k : ℕ) → frames_of id (store k).frames ≡ fs) (contiguous : IsContiguous 0 fs)
    (readable : All IsReadable fs) (small : length fs + page_size < 2 ^ 32) where
  page_at : (k : ℕ) → list id k page_size (store k) ≡ ok (take page_size (drop k fs))
  page_at k =
      (list-contiguous id k page_size fs (store k) (stored k) contiguous (omega arith) readable).0

  historical_from-eq :
      (fuel k : ℕ)
      → k ≤ length fs
      → length fs < k + fuel * page_size
      → historical_from fuel id k store ≡ some (map WireMessage.frame (drop k fs))
  unfolding historical_from
  historical_from-eq zero k le enough = absurd (omega arith)
  historical_from-eq (suc fuel) k le enough =
      let chunk = take page_size (drop k fs) in
      let left : length chunk ≡ min page_size (length fs - k) =
        length-take page_size (drop k fs) ∙ ap (min page_size) (length-drop k fs) in
      elim (Bool-cases (ltb (length chunk) page_size)) [
        | inl short ↦
            ap (λ r. after_page r (historical_from fuel id (saturating_add k page_size) store))
              (page_at k)
            ∙ (after_page-short chunk _ short
                ∙ ap some (
                    append-nil (map WireMessage.frame chunk)
                    ∙ ap (map WireMessage.frame) (
                        take_all page_size (drop k fs) (
                          below-page (length chunk) (length (drop k fs))
                            (length-take page_size (drop k fs)) short))))
        | inr full ↦
            let on : k + page_size ≤ length fs =
              omega (arith, full-page (length chunk) (length fs - k) left full) in
            let sum : saturating_add k page_size ≡ k + page_size = omega (arith, on, small) in
            rw
              (
                page_at k,
                sum,
                historical_from-eq fuel (k + page_size) on (omega (arith, enough)),
                full,
              )
              (ap some (frames_then-drop k fs))
      ]

  -- A log that is whole is streamed whole, in order, within one page more than it fills.
  historical_lines-eq :
      historical_lines (suc (length fs / page_size)) id store ≡ some (map WireMessage.frame fs)
  unfolding historical_lines
  historical_lines-eq =
      historical_from-eq (suc (length fs / page_size)) 0 (omega arith) (omega arith)

-- If a log is numbered from 0 without a gap, fits its columns, and is shorter than 2^32 by a page,
-- the stream of its job, once the row is found with a terminal state and an outcome, is the whole
-- log in order and then that outcome, with one page more than the log fills as its fuel.
pub stream_job-ended :
    (id : JobId) (fs : List LogFrame) (r : Readings) (row : JobRow) (o : JobOutcome)
    → ((k : ℕ) → frames_of id (r.pages k).frames ≡ fs)
    → IsContiguous 0 fs
    → All IsReadable fs
    → length fs + page_size < 2 ^ 32
    → find id r.first ≡ ok (some row)
    → is_terminal row.state ≡ true
    → row.outcome ≡ some o
    → stream_job (suc (length fs / page_size)) (some id) r
      ≡ some (streamed (map WireMessage.frame fs ++ WireMessage.terminal o ∷ []))
unfolding stream_job
stream_job-ended id fs r row o stored contiguous readable small found ended outcome =
    rw (found, ended, outcome, historical_lines-eq id fs r.pages stored contiguous readable small)
      refl
