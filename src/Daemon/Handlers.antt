-- ===== src/Daemon/Handlers.antt =====
-- crates/paavod/src/routes/*.rs: the handlers that change the daemon, with the status they answer.
-- The upload of `POST /jobs` is left out up to the enqueue under the lock, and so are the files that a
-- purge wipes.
use paavo.Prelude.{
  ℕ, ltb, Bool, true, false, ◌||◌, String, Option, List, [], map, if◌then◌else◌, count_where, inl,
  inr,
}
use paavo.Proto.Job.{JobId, JobState, JobOutcome, building, running, awaiting_board}
use paavo.Proto.Board.{BoardSpec, ProbeSelector, is_healthy}
use paavo.Proto.Selector.{Parsed, canonicalize}
use paavo.Db.Store.{
  Database, JobRow, BoardRow, Result, ok, err, panicked, DbError, not_found, already_exists,
  conflict, quarantined_first, referenced_by,
}
use paavo.Db.Board
use paavo.Db.Job.{in_state}
use paavo.Core.Enqueue.{EnqueueRequest, Outcome, CoreError, db, not_cancellable, enqueue_job}
use paavo.Core.Cancel.{cancel_if_pending}
use paavo.Daemon.Registry.{cancel, signal}
use paavo.Daemon.State.{Daemon}

pub data Status : Type 0 where
  accepted created no_content bad_request missing in_conflict internal_error unavailable : Status

-- `core_to_http` of an enqueue.
abbrev enqueue_status : CoreError → Status
enqueue_status (db e) = internal_error
enqueue_status _ = bad_request

abbrev pub enqueued : Daemon → Database × Outcome JobId → Daemon × Status
enqueued d (store, Outcome.ok id) = (record d { db = store }, accepted)
enqueued d (store, Outcome.err e) = (record d { db = store }, enqueue_status e)
enqueued d (store, Outcome.panicked why) = (record d { db = store }, internal_error)

unfoldable pub post_job : EnqueueRequest → ℕ → Daemon → Daemon × Status
unfolding enqueue_job
post_job req now_ms d =
    if d.draining then (d, unavailable) else enqueued d (enqueue_job d.inventory req now_ms d.db)

abbrev pub signalled {ℓ} : {R : Type ℓ} → (R → Daemon) → R × Bool → Daemon × Status
signalled put (r, true) = (put r, no_content)
signalled put (r, false) = (put r, in_conflict)

-- A build is killed, anything else that a worker holds is told to stop.
abbrev pub signal_worker : JobId → JobState → Daemon → Daemon × Status
signal_worker id building d =
    signalled (λ r. record d { build_cancel = r }) (signal id tt d.build_cancel)
signal_worker id _ d =
    signalled (λ r. record d { cancellation = r }) (signal id cancel d.cancellation)

abbrev pub cancelled : JobId → Daemon → Database × Outcome (Option JobOutcome) → Daemon × Status
cancelled id d (store, Outcome.ok o) = (record d { db = store }, no_content)
cancelled id d (store, Outcome.err (not_cancellable s)) =
    signal_worker id s (record d { db = store })
cancelled id d (store, Outcome.err (db (not_found e))) = (record d { db = store }, missing)
cancelled id d (store, Outcome.err e) = (record d { db = store }, internal_error)
cancelled id d (store, Outcome.panicked why) = (record d { db = store }, internal_error)

unfoldable pub cancel_job : JobId → ℕ → Daemon → Daemon × Status
unfolding cancel_if_pending signal
cancel_job id now_ms d = cancelled id d (cancel_if_pending id now_ms d.db)

-- `refresh_inventory`: the cache keeps its value if the table cannot be read.
abbrev pub specs_or : List BoardSpec → Result (List BoardRow) → List BoardSpec
specs_or old (ok rows) = map (λ (r : BoardRow). r.spec) rows
specs_or old (err e) = old
specs_or old (panicked why) = old

unfoldable pub refresh_inventory : Daemon → Daemon
unfolding Board.list_all
refresh_inventory d = record d { inventory = specs_or d.inventory (Board.list_all d.db) }

-- `db_to_http`
abbrev pub board_status : DbError → Status
board_status (not_found e) = missing
board_status (already_exists e) = in_conflict
board_status (conflict e quarantined_first) = bad_request
board_status (conflict e (referenced_by n)) = in_conflict
board_status _ = internal_error

-- A handler that changes a board refreshes the cache if the statement succeeded.
abbrev pub after_board : Status → Daemon → Database × Result (Unit {0}) → Daemon × Status
after_board done d (store, ok _) = (refresh_inventory (record d { db = store }), done)
after_board done d (store, err e) = (record d { db = store }, board_status e)
after_board done d (store, panicked why) = (record d { db = store }, internal_error)

abbrev pub insert_canonical : Parsed ProbeSelector → BoardSpec → ℕ → Daemon → Daemon × Status
insert_canonical (inl fault) spec now_ms d = (d, bad_request)
insert_canonical (inr selector) spec now_ms d =
    after_board created d (Board.insert (record spec { probe_selector = selector }) now_ms d.db)

unfoldable pub add_board : BoardSpec → ℕ → Daemon → Daemon × Status
unfolding Board.insert refresh_inventory canonicalize
add_board spec now_ms d =
    if is_healthy spec.health
    then insert_canonical (canonicalize spec.probe_selector) spec now_ms d
    else (d, bad_request)

-- `reason` has been trimmed, and is not empty.
unfoldable pub quarantine_board : String → String → Daemon → Daemon × Status
unfolding Board.quarantine refresh_inventory
quarantine_board id reason d = after_board no_content d (Board.quarantine id reason d.db)

unfoldable pub unquarantine_board : String → Daemon → Daemon × Status
unfolding Board.unquarantine refresh_inventory
unquarantine_board id d = after_board no_content d (Board.unquarantine id d.db)

unfoldable pub delete_board : String → Daemon → Daemon × Status
unfolding Board.delete refresh_inventory
delete_board id d = after_board no_content d (Board.delete id d.db)

-- `state IN ('building','awaiting_board','running')`
abbrev pub blocks_purge : JobRow → Bool
blocks_purge row = in_state building row || (in_state awaiting_board row || in_state running row)

abbrev pub wiped : Bool → Daemon → Daemon
wiped true d =
    refresh_inventory
      (record d { db = record (d.db) { frames = []; cache = []; jobs = []; boards = [] } })
wiped false d = record d { db = record (d.db) { frames = []; cache = []; jobs = [] } }

-- `purge`, with what it does to the store and the cache of boards; the files on disk are left out.
unfoldable pub purge : Bool → Daemon → Daemon × Status
unfolding refresh_inventory
purge boards d =
    if ltb 0 (count_where blocks_purge d.db.jobs)
    then (d, in_conflict)
    else (wiped boards d, no_content)
