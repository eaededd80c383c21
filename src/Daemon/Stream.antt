-- ===== src/Daemon/Stream.antt =====
-- GET /jobs/:id/stream: crates/paavod/src/routes/jobs.rs, with the live events of job_logs.rs and the
-- messages of crates/paavo-proto/src/stream.rs. A line of the response is the message that it encodes.
pub mod History
pub mod Reads
pub mod Closed
use paavo.Prelude.{
  ℕ, zero, suc, ◌+◌, ◌-◌, ◌^◌, min, ltb, ◌≡◌, Bool, true, false, String, Option, none, some, List,
  [], ◌∷◌, ◌++◌, map, length, if◌then◌else◌,
}
use paavo.Proto.Job.{JobId, JobState, JobOutcome, is_terminal}
use paavo.Proto.Log.{LogFrame}
use paavo.Db.Store.{Database, JobRow, Result, ok, err, panicked}
use paavo.Db.Job.Queries.{find}
use paavo.Db.Log.{list}
use paavo.Daemon.Handlers.{Status, bad_request, missing, internal_error}

pub data JobPhase : Type 0 where
  building running : JobPhase

pub data LiveEvent : Type 0 where
  frame : LogFrame → LiveEvent
  terminal : JobOutcome → LiveEvent
  phase : JobPhase → LiveEvent

-- What the receiver yields: an event, or how many it has missed.
pub data Received : Type 0 where
  event : LiveEvent → Received
  missed : ℕ → Received

pub data WireMessage : Type 0 where
  frame : LogFrame → WireMessage
  terminal : JobOutcome → WireMessage
  phase : JobPhase → WireMessage
  lagged : ℕ → WireMessage
  truncated : String → WireMessage

abbrev pub page_size : ℕ
page_size = 1000

-- `u32::saturating_add`
abbrev pub saturating_add : ℕ → ℕ → ℕ
saturating_add m n = min (m + n) (2 ^ 32 - 1)

abbrev pub frames_then : List LogFrame → List WireMessage → List WireMessage
frames_then fs rest = map WireMessage.frame fs ++ rest

-- One page, and the rest if it was full.
abbrev pub after_page :
    Result (List LogFrame) → Option (List WireMessage) → Option (List WireMessage)
after_page (err e) rest = some (truncated "db error reading historical frames" ∷ [])
after_page (panicked why) rest = none
after_page (ok chunk) none =
    if ltb (length chunk) page_size then some (frames_then chunk []) else none
after_page (ok chunk) (some lines) =
    if ltb (length chunk) page_size
    then some (frames_then chunk [])
    else some (frames_then chunk lines)

-- The loop from an offset on; it has no answer when the fuel is used up. The lock is released between
-- pages, so each page has the store at its time.
unfoldable pub historical_from : ℕ → JobId → ℕ → (ℕ → Database) → Option (List WireMessage)
unfolding list
historical_from zero id offset store = none
historical_from (suc fuel) id offset store =
    let rest = historical_from fuel id (saturating_add offset page_size) store in
    after_page (list id offset page_size (store offset)) rest

unfoldable pub historical_lines : ℕ → JobId → (ℕ → Database) → Option (List WireMessage)
unfolding historical_from
historical_lines fuel id store = historical_from fuel id 0 store

-- The status of a refusal, or the lines of a stream.
pub data Response : Type 0 where
  refused : Status → Response
  streamed : List WireMessage → Response

abbrev pub closing_line : Option JobOutcome → WireMessage
closing_line none = truncated "terminal DB row has NULL outcome"
closing_line (some o) = WireMessage.terminal o

-- The end of a stream whose channel has closed without a terminal event.
abbrev pub recovered_line : Result (Option JobRow) → WireMessage
recovered_line (ok (some row)) =
    if is_terminal row.state
    then closing_line row.outcome
    else truncated "live stream ended before terminal"
recovered_line _ = truncated "live stream ended before terminal"

unfoldable pub live_tail : List Received → WireMessage → List WireMessage
live_tail [] last = last ∷ []
live_tail (event (LiveEvent.frame f) ∷ rest) last = WireMessage.frame f ∷ live_tail rest last
live_tail (event (LiveEvent.terminal o) ∷ rest) last = WireMessage.terminal o ∷ []
live_tail (event (LiveEvent.phase p) ∷ rest) last = WireMessage.phase p ∷ live_tail rest last
live_tail (missed n ∷ rest) last = lagged n ∷ live_tail rest last

abbrev pub with_history : Option (List WireMessage) → List WireMessage → Option Response
with_history none rest = none
with_history (some lines) rest = some (streamed (lines ++ rest))

abbrev pub terminal_response : Option (List WireMessage) → Option JobOutcome → Option Response
terminal_response lines none = some (refused internal_error)
terminal_response lines (some o) = with_history lines (WireMessage.terminal o ∷ [])

-- What one look at the job's row decides.
abbrev pub on_row :
    Option (List WireMessage) → Result (Option JobRow) → Option Response → Option Response
on_row lines (ok none) live = some (refused missing)
on_row lines (ok (some row)) live =
    if is_terminal row.state then terminal_response lines row.outcome else live
on_row lines (err e) live = some (refused internal_error)
on_row lines (panicked why) live = none

-- The stores that the handler reads at its different times, and what its receiver yields.
pub record Readings : Type 0 where
  pub first : Database
  pub second : Database
  pub pages : ℕ → Database
  pub received : List Received
  pub last : Database

-- An id that cannot be parsed is refused. The row is read before and after the handler subscribes.
unfoldable pub stream_job : ℕ → Option JobId → Readings → Option Response
unfolding historical_lines live_tail find is_terminal
stream_job fuel none r = some (refused bad_request)
stream_job fuel (some id) r =
    let lines = historical_lines fuel id r.pages in
    let live = with_history lines (live_tail r.received (recovered_line (find id r.last))) in
    on_row lines (find id r.first) (on_row lines (find id r.second) live)
