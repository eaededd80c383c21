-- ===== src/Daemon/Loops/Requests.antt =====
-- Requests neither take nor give back a slot: crates/paavod/src/routes.
use paavo.Prelude.{
  ℕ, ltb, ◌≡◌, refl, Bool, true, false, Option, length, Bool-cases, inl, inr, count_where,
  if◌then◌else◌,
}
use paavo.Proto.Job.{JobId, JobState, JobOutcome, submitted, building, awaiting_board, running}
use paavo.Proto.Board.{BoardSpec, ProbeSelector, is_healthy}
use paavo.Proto.Selector.{Parsed, canonicalize}
use paavo.Db.Store.{
  Database, Result, ok, err, panicked, sqlite, unknown_enum, not_found, already_exists, conflict,
}
use paavo.Core.Enqueue.{
  EnqueueRequest, Outcome, enqueue_job, not_cancellable, db, over_ceiling, selector_never_matches,
}
use paavo.Daemon.Registry.{signal, cancel}
use paavo.Daemon.State.{Daemon}
use paavo.Daemon.Handlers.{
  Status, unavailable, post_job, add_board, purge, blocks_purge, refresh_inventory, enqueued, wiped,
  signalled, signal_worker, cancelled, after_board, insert_canonical,
}

abbrev pub slots : Daemon → ℕ
slots d = length d.free_slots

enqueued-slots : (d : Daemon) (r : Database × Outcome JobId) → slots (enqueued d r).0 ≡ slots d
enqueued-slots d (store, Outcome.ok id) = refl
enqueued-slots d (store, Outcome.err e) = refl
enqueued-slots d (store, Outcome.panicked why) = refl

signalled-slots {ℓ} :
    {R : Type ℓ} (put : R → Daemon) (n : ℕ) (r : R × Bool)
    → ((x : R) → slots (put x) ≡ n)
    → slots (signalled put r).0 ≡ n
signalled-slots put n (r, true) same = same r
signalled-slots put n (r, false) same = same r

told :
    (id : JobId) (d : Daemon)
    → slots (signalled (λ r. record d { cancellation = r }) (signal id cancel d.cancellation)).0
      ≡ slots d
told id d =
    signalled-slots (λ r. record d { cancellation = r }) (slots d) (signal id cancel d.cancellation)
      (λ _. refl)

signal_worker-slots :
    (id : JobId) (s : JobState) (d : Daemon) → slots (signal_worker id s d).0 ≡ slots d
signal_worker-slots id building d =
    signalled-slots (λ r. record d { build_cancel = r }) (slots d) (signal id tt d.build_cancel)
      (λ _. refl)
signal_worker-slots id submitted d = told id d
signal_worker-slots id running d = told id d
signal_worker-slots id awaiting_board d = told id d
signal_worker-slots id JobState.passed d = told id d
signal_worker-slots id JobState.failed d = told id d
signal_worker-slots id JobState.timed_out d = told id d
signal_worker-slots id JobState.aborted d = told id d

pub cancelled-slots :
    (id : JobId) (d : Daemon) (r : Database × Outcome (Option JobOutcome))
    → slots (cancelled id d r).0 ≡ slots d
cancelled-slots id d (store, Outcome.ok o) = refl
cancelled-slots id d (store, Outcome.err (not_cancellable s)) =
    signal_worker-slots id s (record d { db = store })
cancelled-slots id d (store, Outcome.err (db (not_found e))) = refl
cancelled-slots id d (store, Outcome.err (db (sqlite e))) = refl
cancelled-slots id d (store, Outcome.err (db (unknown_enum e f))) = refl
cancelled-slots id d (store, Outcome.err (db (already_exists e))) = refl
cancelled-slots id d (store, Outcome.err (db (conflict e f))) = refl
cancelled-slots id d (store, Outcome.err (over_ceiling a b)) = refl
cancelled-slots id d (store, Outcome.err (selector_never_matches s)) = refl
cancelled-slots id d (store, Outcome.panicked why) = refl

pub after_board-slots :
    (done : Status) (d : Daemon) (r : Database × Result (Unit {0}))
    → slots (after_board done d r).0 ≡ slots d
unfolding refresh_inventory
after_board-slots done d (store, ok u) = refl
after_board-slots done d (store, err e) = refl
after_board-slots done d (store, panicked why) = refl

insert_canonical-slots :
    (selector : Parsed ProbeSelector) (spec : BoardSpec) (now_ms : ℕ) (d : Daemon)
    → slots (insert_canonical selector spec now_ms d).0 ≡ slots d
insert_canonical-slots (inl fault) spec now_ms d = refl
insert_canonical-slots (inr selector) spec now_ms d = after_board-slots _ d _

wiped-slots : (boards : Bool) (d : Daemon) → slots (wiped boards d) ≡ slots d
unfolding refresh_inventory
wiped-slots true d = refl
wiped-slots false d = refl

pub post_job-slots :
    (req : EnqueueRequest) (now_ms : ℕ) (d : Daemon) → slots (post_job req now_ms d).0 ≡ slots d
unfolding post_job
post_job-slots req now_ms d = unless_draining d.draining
  where
    unless_draining :
        (b : Bool)
        → slots
            (if b then (d, unavailable) else enqueued d (enqueue_job d.inventory req now_ms d.db)).0
          ≡ slots d
    unless_draining true = refl
    unless_draining false = enqueued-slots d (enqueue_job d.inventory req now_ms d.db)

pub add_board-slots :
    (spec : BoardSpec) (now_ms : ℕ) (d : Daemon) → slots (add_board spec now_ms d).0 ≡ slots d
unfolding add_board
add_board-slots spec now_ms d = elim (Bool-cases (is_healthy spec.health)) [
  | inl well ↦ rw well (insert_canonical-slots (canonicalize spec.probe_selector) spec now_ms d)
  | inr sick ↦ rw sick refl
]

pub purge-slots : (boards : Bool) (d : Daemon) → slots (purge boards d).0 ≡ slots d
unfolding purge
purge-slots boards d = elim (Bool-cases (ltb 0 (count_where blocks_purge d.db.jobs))) [
  | inl busy ↦ rw busy refl
  | inr idle ↦ rw idle (wiped-slots boards d)
]
