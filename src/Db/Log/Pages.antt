-- ===== src/Db/Log/Pages.antt =====
-- Pages of a log: crates/paavo-db/src/log.rs, `list` and `count_for_job`.
use paavo.Prelude.{
  ℕ, zero, suc, ◌+◌, ◌^◌, ◌≤◌, ◌<◌, ◌≡◌, refl, sym, ap, ◌∙◌, leb, true, List, [], ◌∷◌, take, drop,
  length, arith, All, rows_where, length-rows_where, length-map,
}
use paavo.Prelude.Sort.{insert_by, sort_by}
use paavo.Proto.Job.{JobId}
use paavo.Proto.Log.{LogFrame}
use paavo.Db.Store.{Database, ok, decode_all, fits_i64}
use paavo.Db.Log.{frames_of, is_frame_of, as_i64, seq_leb, row_to_frame, list, count_for_job}
use paavo.Db.Log.Batch.{IsContiguous}

as_i64-leb : (m n : ℕ) → m ≤ n → n < 2 ^ 63 → leb (as_i64 m) (as_i64 n) ≡ true
as_i64-leb m n le small = ground arith

-- Frames that count up are sorted already.
sort_by-contiguous :
    (n : ℕ) (fs : List LogFrame)
    → IsContiguous n fs
    → n + length fs ≤ 2 ^ 63
    → sort_by seq_leb fs ≡ fs
unfolding sort_by insert_by
sort_by-contiguous n [] h small = refl
sort_by-contiguous n (f ∷ []) h small = refl
sort_by-contiguous n (f ∷ g ∷ fs) h small =
    rw (sort_by-contiguous (suc n) (g ∷ fs) h.1 (omega arith))
      (ground (arith, as_i64-leb f.seq g.seq (omega (arith, h.0, h.1.0)) (omega (arith, h.1.0))))

-- A frame whose columns can be read back.
abbrev pub IsReadable : LogFrame → Type 0
IsReadable f = (fits_i64 f.seq ≡ true) × (fits_i64 f.ts_us ≡ true)

decode_all-readable : (fs : List LogFrame) → All IsReadable fs → decode_all row_to_frame fs ≡ ok fs
unfolding decode_all row_to_frame
decode_all-readable [] h = refl
decode_all-readable (f ∷ fs) h = rw (decode_all-readable fs h.1, h.0.0, h.0.1) refl

module _ {ℓ κ} {A : Type ℓ} (P : A → Type κ) where
  All-take : (n : ℕ) (xs : List A) → All P xs → All P (take n xs)
  All-take zero xs h = tt
  All-take (suc n) [] h = tt
  All-take (suc n) (x ∷ xs) h = (h.0, All-take n xs h.1)

  All-drop : (n : ℕ) (xs : List A) → All P xs → All P (drop n xs)
  All-drop zero xs h = h
  All-drop (suc n) [] h = tt
  All-drop (suc n) (x ∷ xs) h = All-drop n xs h.1

-- A log that counts up from 0 is listed page by page in its order, and is counted in full.
pub list-contiguous :
    (id : JobId) (offset limit : ℕ) (fs : List LogFrame) (db : Database)
    → frames_of id db.frames ≡ fs
    → IsContiguous 0 fs
    → length fs ≤ 2 ^ 63
    → All IsReadable fs
    → (list id offset limit db ≡ ok (take limit (drop offset fs)))
      × (count_for_job id db ≡ length fs)
unfolding list count_for_job
list-contiguous id offset limit fs db e h small readable = (
  rw (e, sort_by-contiguous 0 fs h (omega arith))
      (decode_all-readable (take limit (drop offset fs))
        (All-take IsReadable limit (drop offset fs) (All-drop IsReadable offset fs readable))),
  sym (length-rows_where (is_frame_of id) db.frames)
      ∙ (sym (length-map (λ row. row.frame) (rows_where (is_frame_of id) db.frames)) ∙ ap length e),
)
