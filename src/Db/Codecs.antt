-- ===== src/Db/Codecs.antt =====
-- The texts and numbers that stand for enums in the columns: crates/paavo-db/src/job.rs, board.rs and
-- log.rs.
use paavo.Prelude.{ℕ, ◌==◌, ◌≡◌, refl, String, str_eq, str_eq→eq, arith, if◌then◌else◌}
use paavo.Proto.Job.{
  Priority, interactive, scheduled, JobSource, cli, scheduler, JobState, submitted, building,
  running, awaiting_board, weight,
}
use paavo.Proto.Board.{BoardHealth, healthy, quarantined}
use paavo.Proto.Log.{LogLevel, trace, debug, info, warn, error}
use paavo.Db.Store.{Result, ok, err, unknown_enum}

unfoldable pub state_to_str : JobState → String
state_to_str submitted = "submitted"
state_to_str building = "building"
state_to_str running = "running"
state_to_str awaiting_board = "awaiting_board"
state_to_str JobState.passed = "passed"
state_to_str JobState.failed = "failed"
state_to_str JobState.timed_out = "timedout"
state_to_str JobState.aborted = "aborted"

unfoldable pub state_from_str : String → Result JobState
state_from_str s =
    if str_eq s "submitted"
    then ok submitted
    else if str_eq s "building"
    then ok building
    else if str_eq s "running"
    then ok running
    else if str_eq s "awaiting_board"
    then ok awaiting_board
    else if str_eq s "passed"
    then ok JobState.passed
    else if str_eq s "failed"
    then ok JobState.failed
    else if str_eq s "timedout"
    then ok JobState.timed_out
    else if str_eq s "aborted"
    then ok JobState.aborted
    else err (unknown_enum "job.state" s)

unfoldable pub source_to_str : JobSource → String
source_to_str cli = "cli"
source_to_str scheduler = "scheduler"

unfoldable pub source_from_str : String → Result JobSource
source_from_str s =
    if str_eq s "cli"
    then ok cli
    else if str_eq s "scheduler"
    then ok scheduler
    else err (unknown_enum "job.source" s)

unfoldable pub health_to_str : BoardHealth → String
health_to_str healthy = "healthy"
health_to_str quarantined = "quarantined"

unfoldable pub health_from_str : String → Result BoardHealth
health_from_str s =
    if str_eq s "healthy"
    then ok healthy
    else if str_eq s "quarantined"
    then ok quarantined
    else err (unknown_enum "board.health" s)

unfoldable pub level_to_str : LogLevel → String
level_to_str trace = "trace"
level_to_str debug = "debug"
level_to_str info = "info"
level_to_str warn = "warn"
level_to_str error = "error"

unfoldable pub level_from_str : String → Result LogLevel
level_from_str s =
    if str_eq s "trace"
    then ok trace
    else if str_eq s "debug"
    then ok debug
    else if str_eq s "info"
    then ok info
    else if str_eq s "warn"
    then ok warn
    else if str_eq s "error"
    then ok error
    else err (unknown_enum "log_frame.level" s)

-- The text of the number in the error is a parameter.
unfoldable pub priority_from_i64 : String → ℕ → Result Priority
priority_from_i64 text n =
    if n == 0
    then ok interactive
    else if n == 1
    then ok scheduled
    else err (unknown_enum "job.priority" text)

state_decodes : (x : JobState) → state_from_str (state_to_str x) ≡ ok x
unfolding state_from_str state_to_str
state_decodes submitted = refl
state_decodes building = refl
state_decodes running = refl
state_decodes awaiting_board = refl
state_decodes JobState.passed = refl
state_decodes JobState.failed = refl
state_decodes JobState.timed_out = refl
state_decodes JobState.aborted = refl

state_encodes : (s : String) (x : JobState) → state_from_str s ≡ ok x → state_to_str x ≡ s
unfolding state_from_str state_to_str
state_encodes s x h = ground (
  arith,
  str_eq→eq s "submitted",
  str_eq→eq s "building",
  str_eq→eq s "running",
  str_eq→eq s "awaiting_board",
  str_eq→eq s "passed",
  str_eq→eq s "failed",
  str_eq→eq s "timedout",
  str_eq→eq s "aborted",
)

source_decodes : (x : JobSource) → source_from_str (source_to_str x) ≡ ok x
unfolding source_from_str source_to_str
source_decodes cli = refl
source_decodes scheduler = refl

source_encodes : (s : String) (x : JobSource) → source_from_str s ≡ ok x → source_to_str x ≡ s
unfolding source_from_str source_to_str
source_encodes s x h = ground (arith, str_eq→eq s "cli", str_eq→eq s "scheduler")

health_decodes : (x : BoardHealth) → health_from_str (health_to_str x) ≡ ok x
unfolding health_from_str health_to_str
health_decodes healthy = refl
health_decodes quarantined = refl

health_encodes : (s : String) (x : BoardHealth) → health_from_str s ≡ ok x → health_to_str x ≡ s
unfolding health_from_str health_to_str
health_encodes s x h = ground (arith, str_eq→eq s "healthy", str_eq→eq s "quarantined")

level_decodes : (x : LogLevel) → level_from_str (level_to_str x) ≡ ok x
unfolding level_from_str level_to_str
level_decodes trace = refl
level_decodes debug = refl
level_decodes info = refl
level_decodes warn = refl
level_decodes error = refl

level_encodes : (s : String) (x : LogLevel) → level_from_str s ≡ ok x → level_to_str x ≡ s
unfolding level_from_str level_to_str
level_encodes s x h = ground (
  arith,
  str_eq→eq s "trace",
  str_eq→eq s "debug",
  str_eq→eq s "info",
  str_eq→eq s "warn",
  str_eq→eq s "error",
)

priority_decodes : (text : String) (x : Priority) → priority_from_i64 text (weight x) ≡ ok x
unfolding priority_from_i64 weight
priority_decodes text interactive = refl
priority_decodes text scheduled = refl

priority_encodes :
    (text : String) (n : ℕ) (x : Priority) → priority_from_i64 text n ≡ ok x → weight x ≡ n
unfolding priority_from_i64 weight
priority_encodes text n x h = ground arith

-- What is read back and what was written, for one column.
abbrev pub IsCodec : {A C : Type 0} → (A → C) → (C → Result A) → Type 0
IsCodec {A} {C} write read =
    ((a : A) → read (write a) ≡ ok a) × ((c : C) (a : A) → read c ≡ ok a → write a ≡ c)

-- For the columns of states, sources, healths, levels and priorities, what was written reads back,
-- and only what can be written is read.
pub columns-IsCodec :
    (text : String)
    → IsCodec state_to_str state_from_str
      × IsCodec source_to_str source_from_str
      × IsCodec health_to_str health_from_str
      × IsCodec level_to_str level_from_str
      × IsCodec weight (priority_from_i64 text)
columns-IsCodec text = (
  (state_decodes, state_encodes),
  (source_decodes, source_encodes),
  (health_decodes, health_encodes),
  (level_decodes, level_encodes),
  (priority_decodes text, priority_encodes text),
)
