-- ===== src/Daemon/Stream/Closed.antt =====
-- Every stream is closed by its last line and by no other: crates/paavod/src/routes/jobs.rs.
use paavo.Prelude.{
  ℕ, zero, suc, ◌+◌, ◌*◌, ◌/◌, ◌^◌, ◌≤◌, ◌<◌, ltb, ◌≡◌, refl, Bool, true, false, Option, some, none,
  List, [], ◌∷◌, ◌++◌, map, length, arith, All, All-append, Bool-cases, inl, inr, String,
}
use paavo.Proto.Job.{JobId, JobOutcome, is_terminal}
use paavo.Proto.Log.{LogFrame}
use paavo.Db.Store.{Database, JobRow, Result, ok, err, panicked}
use paavo.Db.Job.{from_row}
use paavo.Db.Job.Queries.{find}
use paavo.Db.Log.{frames_of, list}
use paavo.Daemon.Stream.{
  WireMessage, lagged, truncated, page_size, saturating_add, after_page, historical_from,
  historical_lines, Response, refused, streamed, closing_line, recovered_line, Received, event,
  missed, LiveEvent, live_tail, with_history, terminal_response, on_row, Readings, stream_job,
}
use paavo.Daemon.Stream.Reads.{full-left, list-answers}

abbrev pub is_terminal_line : WireMessage → Bool
is_terminal_line (WireMessage.terminal o) = true
is_terminal_line _ = false

-- A terminal line, or one that says the stream was cut short.
abbrev pub is_closing_line : WireMessage → Bool
is_closing_line (WireMessage.terminal o) = true
is_closing_line (truncated why) = true
is_closing_line _ = false

-- The last line closes the stream, and no line before it is terminal.
abbrev pub IsClosed : List WireMessage → Type 0
IsClosed [] = ⊥
IsClosed (m ∷ []) = is_closing_line m ≡ true
IsClosed (m ∷ n ∷ ms) = (is_terminal_line m ≡ false) × IsClosed (n ∷ ms)

abbrev IsOpen : WireMessage → Type 0
IsOpen m = is_terminal_line m ≡ false

IsClosed-cons :
    (m : WireMessage) (ms : List WireMessage) → IsOpen m → IsClosed ms → IsClosed (m ∷ ms)
IsClosed-cons m [] e h = absurd h
IsClosed-cons m (n ∷ ms) e h = (e, h)

IsClosed-append : (ms ns : List WireMessage) → All IsOpen ms → IsClosed ns → IsClosed (ms ++ ns)
IsClosed-append [] ns h c = c
IsClosed-append (m ∷ ms) ns h c = IsClosed-cons m (ms ++ ns) h.0 (IsClosed-append ms ns h.1 c)

live_tail-IsClosed :
    (rs : List Received) (last : WireMessage)
    → is_closing_line last ≡ true
    → IsClosed (live_tail rs last)
unfolding live_tail
live_tail-IsClosed [] last h = h
live_tail-IsClosed (event (LiveEvent.frame f) ∷ rs) last h =
    IsClosed-cons (WireMessage.frame f) _ refl (live_tail-IsClosed rs last h)
live_tail-IsClosed (event (LiveEvent.terminal o) ∷ rs) last h = refl
live_tail-IsClosed (event (LiveEvent.phase p) ∷ rs) last h =
    IsClosed-cons (WireMessage.phase p) _ refl (live_tail-IsClosed rs last h)
live_tail-IsClosed (missed n ∷ rs) last h =
    IsClosed-cons (lagged n) _ refl (live_tail-IsClosed rs last h)

closing_line-closes : (o : Option JobOutcome) → is_closing_line (closing_line o) ≡ true
closing_line-closes none = refl
closing_line-closes (some o) = refl

recovered_line-closes : (r : Result (Option JobRow)) → is_closing_line (recovered_line r) ≡ true
recovered_line-closes (ok none) = refl
recovered_line-closes (ok (some row)) = elim (Bool-cases (is_terminal row.state)) [
  | inl ended ↦ rw ended (closing_line-closes row.outcome)
  | inr going ↦ rw going refl
]
recovered_line-closes (err e) = refl
recovered_line-closes (panicked why) = refl

-- The loop has an answer, and no line of it is terminal.
abbrev IsHistory : Option (List WireMessage) → Type 0
IsHistory none = ⊥
IsHistory (some lines) = All IsOpen lines

frames-IsOpen : (fs : List LogFrame) → All IsOpen (map WireMessage.frame fs)
frames-IsOpen [] = tt
frames-IsOpen (f ∷ fs) = (refl, frames-IsOpen fs)

module _ (id : JobId) (store : ℕ → Database) (bound : ℕ)
    (within : (k : ℕ) → length (frames_of id (store k).frames) ≤ bound)
    (small : bound + page_size < 2 ^ 32) where
  short-IsHistory :
      (chunk : List LogFrame) (rest : Option (List WireMessage))
      → ltb (length chunk) page_size ≡ true
      → IsHistory (after_page (ok chunk) rest)
  short-IsHistory chunk none e =
      rw e (All-append IsOpen (map WireMessage.frame chunk) [] (frames-IsOpen chunk) tt)
  short-IsHistory chunk (some lines) e =
      rw e (All-append IsOpen (map WireMessage.frame chunk) [] (frames-IsOpen chunk) tt)

  full-IsHistory :
      (chunk : List LogFrame) (rest : Option (List WireMessage))
      → ltb (length chunk) page_size ≡ false
      → IsHistory rest
      → IsHistory (after_page (ok chunk) rest)
  full-IsHistory chunk none e h = absurd h
  full-IsHistory chunk (some lines) e h =
      rw e (All-append IsOpen (map WireMessage.frame chunk) lines (frames-IsOpen chunk) h)

  historical_from-IsHistory :
      (fuel k : ℕ)
      → k ≤ bound
      → bound < k + fuel * page_size
      → IsHistory (historical_from fuel id k store)
  unfolding historical_from
  historical_from-IsHistory zero k le enough = absurd (omega arith)
  historical_from-IsHistory (suc fuel) k le enough =
      by_page (list id k page_size (store k)) refl (historical_from-IsHistory fuel (k + page_size))
    where
      by_page :
          (r : Result (List LogFrame))
          → list id k page_size (store k) ≡ r
          → (k + page_size ≤ bound
              → bound < k + page_size + fuel * page_size
              → IsHistory (historical_from fuel id (k + page_size) store))
          → IsHistory (after_page r (historical_from fuel id (saturating_add k page_size) store))
      by_page (err e) read ih = (refl, tt)
      by_page (panicked why) read ih = absurd (list-answers id k (store k) why read)
      by_page (ok chunk) read ih = elim (Bool-cases (ltb (length chunk) page_size)) [
        | inl short ↦ short-IsHistory chunk _ short
        | inr full ↦
            let left = full-left id k (store k) chunk read full in
            let on : k + page_size ≤ bound = omega (arith, left, within k) in
            let sum : saturating_add k page_size ≡ k + page_size = omega (arith, on, small) in
            full-IsHistory chunk _ full (rw sum (ih on (omega (arith, enough))))
      ]

-- What the client is answered, if it is.
abbrev pub IsAnswer : Option Response → Type 0
IsAnswer none = ⊥
IsAnswer (some (refused status)) = Unit
IsAnswer (some (streamed lines)) = IsClosed lines

with_history-IsAnswer :
    (lines : Option (List WireMessage)) (rest : List WireMessage)
    → IsHistory lines
    → IsClosed rest
    → IsAnswer (with_history lines rest)
with_history-IsAnswer none rest h c = h
with_history-IsAnswer (some lines) rest h c = IsClosed-append lines rest h c

terminal_response-IsAnswer :
    (lines : Option (List WireMessage)) (o : Option JobOutcome)
    → IsHistory lines
    → IsAnswer (terminal_response lines o)
terminal_response-IsAnswer lines none h = tt
terminal_response-IsAnswer lines (some o) h = with_history-IsAnswer lines _ h refl

on_row-IsAnswer :
    (lines : Option (List WireMessage)) (r : Result (Option JobRow)) (live : Option Response)
    → IsHistory lines
    → ((why : String) → ¬ (r ≡ panicked why))
    → IsAnswer live
    → IsAnswer (on_row lines r live)
on_row-IsAnswer lines (ok none) live h answers a = tt
on_row-IsAnswer lines (ok (some row)) live h answers a = elim (Bool-cases (is_terminal row.state)) [
  | inl ended ↦ rw ended (terminal_response-IsAnswer lines row.outcome h)
  | inr going ↦ rw going a
]
on_row-IsAnswer lines (err e) live h answers a = tt
on_row-IsAnswer lines (panicked why) live h answers a = answers why refl

find-answers : (id : JobId) (db : Database) (why : String) → ¬ (find id db ≡ panicked why)
unfolding find from_row
find-answers id db why h = ground arith

-- When no log that it reads is longer than a bound, shorter than 2^32 by a page, a stream has its
-- answer with one page more than the bound fills as its fuel: a refusal, or lines of which the last
-- is a terminal line or a truncation, and no other is a terminal line.
pub stream_job-IsAnswer :
    (id : Option JobId) (r : Readings) (bound : ℕ)
    → ((job : JobId) (k : ℕ) → length (frames_of job (r.pages k).frames) ≤ bound)
    → bound + page_size < 2 ^ 32
    → IsAnswer (stream_job (suc (bound / page_size)) id r)
unfolding stream_job historical_lines
stream_job-IsAnswer none r bound within small = tt
stream_job-IsAnswer (some id) r bound within small =
    let lines = historical_lines (suc (bound / page_size)) id r.pages in
    let h : IsHistory lines =
      historical_from-IsHistory id r.pages bound (within id) small (suc (bound / page_size)) 0
        (omega arith) (omega arith) in
    on_row-IsAnswer lines (find id r.first) _ h (find-answers id r.first) (
      on_row-IsAnswer lines (find id r.second) _ h (find-answers id r.second) (
        with_history-IsAnswer lines _ h (
          live_tail-IsClosed r.received (recovered_line (find id r.last))
            (recovered_line-closes (find id r.last)))))
