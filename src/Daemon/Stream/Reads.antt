-- ===== src/Daemon/Stream/Reads.antt =====
-- The reads of a stream's pages: crates/paavod/src/routes/jobs.rs, `historical_lines`.
use paavo.Prelude.{
  ℕ, ◌-◌, ◌≤◌, min, ltb, ◌≡◌, ap, ◌∙◌, subst, false, List, [], ◌∷◌, take, drop, length, arith,
  String,
}
use paavo.Prelude.Sort.{sort_by, length-sort_by}
use paavo.Proto.Job.{JobId}
use paavo.Proto.Log.{LogFrame}
use paavo.Db.Store.{Database, Result, ok, err, panicked, decode_all, cons_result}
use paavo.Db.Decode.{decode_all-eq}
use paavo.Db.Log.{frames_of, seq_leb, row_to_frame, list}
use paavo.Daemon.Stream.{page_size}
use paavo.Daemon.Stream.History.{length-take, length-drop, full-page}

row_to_frame_same : (f g : LogFrame) → row_to_frame f ≡ ok g → g ≡ f
unfolding row_to_frame
row_to_frame_same f g h = ground arith

-- A full page means that a whole page is left of the log.
pub full-left :
    (id : JobId) (k : ℕ) (db : Database) (chunk : List LogFrame)
    → list id k page_size db ≡ ok chunk
    → ltb (length chunk) page_size ≡ false
    → page_size ≤ length (frames_of id db.frames) - k
unfolding list
full-left id k db chunk h full =
    let sorted = sort_by seq_leb (frames_of id db.frames) in
    let len : length chunk ≡ min page_size (length sorted - k) =
      ap length (decode_all-eq row_to_frame row_to_frame_same _ chunk h)
      ∙ (length-take page_size (drop k sorted) ∙ ap (min page_size) (length-drop k sorted)) in
    subst (λ n. page_size ≤ n - k) (length-sort_by seq_leb (frames_of id db.frames))
      (full-page (length chunk) (length sorted - k) len full)

cons_result-answers :
    (why : String) (r : Result LogFrame) (rs : Result (List LogFrame))
    → ¬ (r ≡ panicked why)
    → ¬ (rs ≡ panicked why)
    → ¬ (cons_result r rs ≡ panicked why)
cons_result-answers why (ok a) (ok as') n m h = cc
cons_result-answers why (ok a) (err e) n m h = cc
cons_result-answers why (ok a) (panicked w) n m h = m h
cons_result-answers why (err e) rs n m h = cc
cons_result-answers why (panicked w) rs n m h = n (cc h)

row_to_frame-answers : (f : LogFrame) (why : String) → ¬ (row_to_frame f ≡ panicked why)
unfolding row_to_frame
row_to_frame-answers f why h = ground arith

decode_all-answers :
    (fs : List LogFrame) (why : String) → ¬ (decode_all row_to_frame fs ≡ panicked why)
unfolding decode_all
decode_all-answers [] why h = cc
decode_all-answers (f ∷ fs) why h =
    cons_result-answers why (row_to_frame f) (decode_all row_to_frame fs)
      (row_to_frame-answers f why) (decode_all-answers fs why) h

pub list-answers :
    (id : JobId) (k : ℕ) (db : Database) (why : String) → ¬ (list id k page_size db ≡ panicked why)
unfolding list
list-answers id k db why =
    decode_all-answers (take page_size (drop k (sort_by seq_leb (frames_of id db.frames)))) why
