-- ===== src/Daemon/Requests.antt =====
-- The requests of clients keep each stable property of the `job` table, whatever they ask.
use paavo.Prelude.{
  ℕ, ◌≡◌, refl, sym, subst, ◌∙◌, Bool, true, false, String, Option, some, List, [], Bool-cases, inl,
  inr, if◌then◌else◌, count_where, ltb,
}
use paavo.Proto.Job.{JobId, JobState, JobOutcome, submitted, building, running, awaiting_board}
use paavo.Proto.Board.{BoardSpec, ProbeSelector, is_healthy}
use paavo.Proto.Selector.{Parsed, canonicalize}
use paavo.Db.Store.{
  Database, JobRow, Result, ok, err, panicked, sqlite, unknown_enum, not_found, already_exists,
  conflict,
}
use paavo.Db.Job.Queries.{get}
use paavo.Db.Job.Moves.{OutcomeRecord, finalize, insert}
use paavo.Db.Job.Stable.{IsStable}
use paavo.Core.Cancel.{user_abort, cancel_if_pending, is_pending, cancel_found}
use paavo.Core.Enqueue.{
  EnqueueRequest, Outcome, enqueue_job, validate_enqueue, from_db, not_cancellable, db,
  over_ceiling, selector_never_matches,
}
use paavo.Daemon.Registry.{signal, cancel}
use paavo.Daemon.State.{Daemon}
use paavo.Daemon.Handlers.{
  Status, post_job, cancel_job, add_board, quarantine_board, unquarantine_board, delete_board,
  purge, blocks_purge, refresh_inventory, enqueued, wiped, signalled, signal_worker, cancelled,
  after_board, insert_canonical,
}
use paavo.Daemon.Keeps.{
  Board-insert-jobs, Board-quarantine-jobs, Board-unquarantine-jobs, Board-delete-jobs,
}

from_db-store {ℓ κ} :
    {A : Type ℓ} {B : Type κ} (f : A → Outcome B) (r : Database × Result A) → (from_db f r).0 ≡ r.0
from_db-store f (store, Result.ok a) = refl
from_db-store f (store, Result.err e) = refl
from_db-store f (store, Result.panicked why) = refl

module _ (P : List JobRow → Type 0) (stable : IsStable P) where
  from_db_stable {ℓ κ} :
      {A : Type ℓ} {B : Type κ} (f : A → Outcome B) (r : Database × Result A)
      → P r.0.jobs
      → P (from_db f r).0.jobs
  from_db_stable f r v = subst (λ (s : Database). P s.jobs) (sym (from_db-store f r)) v

  cancel_found_stable :
      (may : JobState → Bool) (id : JobId) (now_ms : ℕ) (r : Result JobRow) (store : Database)
      → P store.jobs
      → P (cancel_found may id now_ms r store).0.jobs
  cancel_found_stable may id now_ms (Result.ok row) store v = elim (Bool-cases (may row.state)) [
    | inl may_end ↦ rw may_end (
        from_db_stable (λ _. Outcome.ok (some user_abort)) (finalize id ended store)
          (stable.after_finalize id ended store refl v))
    | inr held ↦ rw held v
  ]
    where
      ended : OutcomeRecord
      ended = record { state = JobState.aborted; outcome = user_abort; finished_at_ms = now_ms }
  cancel_found_stable may id now_ms (Result.err e) store v = v
  cancel_found_stable may id now_ms (Result.panicked why) store v = v

  pub cancel_if_pending_stable :
      (id : JobId) (now_ms : ℕ) (store : Database)
      → P store.jobs
      → P (cancel_if_pending id now_ms store).0.jobs
  unfolding cancel_if_pending
  cancel_if_pending_stable id now_ms store v =
      cancel_found_stable is_pending id now_ms (get id store) store v

  pub enqueue_job_stable :
      (inventory : List BoardSpec) (req : EnqueueRequest) (now_ms : ℕ) (store : Database)
      → P store.jobs
      → P (enqueue_job inventory req now_ms store).0.jobs
  unfolding enqueue_job
  enqueue_job_stable inventory req now_ms store v = admitted (validate_enqueue req inventory)
    where
      admitted :
          (o : Outcome (Unit {0}))
          → P
              (elim o as (λ _. Database × Outcome JobId) [
                | Outcome.ok _ ↦ from_db (λ _. Outcome.ok req.id) (insert req.new now_ms store)
                | Outcome.err e ↦ (store, Outcome.err e)
                | Outcome.panicked why ↦ (store, Outcome.panicked why)
              ]).0.jobs
      admitted (Outcome.ok u) =
          from_db_stable (λ _. Outcome.ok req.id) (insert req.new now_ms store)
            (stable.after_insert req.new now_ms store v)
      admitted (Outcome.err e) = v
      admitted (Outcome.panicked why) = v

enqueued-db : (d : Daemon) (r : Database × Outcome JobId) → (enqueued d r).0.db ≡ r.0
enqueued-db d (store, Outcome.ok id) = refl
enqueued-db d (store, Outcome.err e) = refl
enqueued-db d (store, Outcome.panicked why) = refl

signalled-db {ℓ} :
    {R : Type ℓ} (put : R → Daemon) (s : Database) (r : R × Bool)
    → ((x : R) → (put x).db ≡ s)
    → (signalled put r).0.db ≡ s
signalled-db put s (r, true) same = same r
signalled-db put s (r, false) same = same r

told :
    (id : JobId) (d : Daemon)
    → (signalled (λ r. record d { cancellation = r }) (signal id cancel d.cancellation)).0.db ≡ d.db
told id d =
    signalled-db (λ r. record d { cancellation = r }) d.db (signal id cancel d.cancellation)
      (λ _. refl)

signal_worker-db : (id : JobId) (s : JobState) (d : Daemon) → (signal_worker id s d).0.db ≡ d.db
signal_worker-db id building d =
    signalled-db (λ r. record d { build_cancel = r }) d.db (signal id tt d.build_cancel) (λ _. refl)
signal_worker-db id submitted d = told id d
signal_worker-db id running d = told id d
signal_worker-db id awaiting_board d = told id d
signal_worker-db id JobState.passed d = told id d
signal_worker-db id JobState.failed d = told id d
signal_worker-db id JobState.timed_out d = told id d
signal_worker-db id JobState.aborted d = told id d

pub cancelled-db :
    (id : JobId) (d : Daemon) (r : Database × Outcome (Option JobOutcome))
    → (cancelled id d r).0.db ≡ r.0
cancelled-db id d (store, Outcome.ok o) = refl
cancelled-db id d (store, Outcome.err (not_cancellable s)) =
    signal_worker-db id s (record d { db = store })
cancelled-db id d (store, Outcome.err (db (not_found e))) = refl
cancelled-db id d (store, Outcome.err (db (sqlite e))) = refl
cancelled-db id d (store, Outcome.err (db (unknown_enum e f))) = refl
cancelled-db id d (store, Outcome.err (db (already_exists e))) = refl
cancelled-db id d (store, Outcome.err (db (conflict e f))) = refl
cancelled-db id d (store, Outcome.err (over_ceiling a b)) = refl
cancelled-db id d (store, Outcome.err (selector_never_matches s)) = refl
cancelled-db id d (store, Outcome.panicked why) = refl

pub after_board-jobs :
    (done : Status) (d : Daemon) (r : Database × Result (Unit {0}))
    → (after_board done d r).0.db.jobs ≡ r.0.jobs
unfolding refresh_inventory
after_board-jobs done d (store, ok u) = refl
after_board-jobs done d (store, err e) = refl
after_board-jobs done d (store, panicked why) = refl

module _ (P : List JobRow → Type 0) (stable : IsStable P) (d : Daemon) (v : P d.db.jobs) where
  pub post_job_stable : (req : EnqueueRequest) (now_ms : ℕ) → P (post_job req now_ms d).0.db.jobs
  unfolding post_job
  post_job_stable req now_ms = unless_draining d.draining _ (
      subst (λ (s : Database). P s.jobs)
        (sym (enqueued-db d (enqueue_job d.inventory req now_ms d.db)))
        (enqueue_job_stable P stable d.inventory req now_ms d.db v))
    where
      unless_draining :
          (b : Bool) (x : Daemon × Status)
          → P x.0.db.jobs
          → P (if b then (d, Status.unavailable) else x).0.db.jobs
      unless_draining true x w = v
      unless_draining false x w = w

  pub cancel_job_stable : (id : JobId) (now_ms : ℕ) → P (cancel_job id now_ms d).0.db.jobs
  unfolding cancel_job
  cancel_job_stable id now_ms =
      subst (λ (s : Database). P s.jobs)
        (sym (cancelled-db id d (cancel_if_pending id now_ms d.db)))
        (cancel_if_pending_stable P stable id now_ms d.db v)

  insert_canonical-jobs :
      (selector : Parsed ProbeSelector) (spec : BoardSpec) (now_ms : ℕ)
      → (insert_canonical selector spec now_ms d).0.db.jobs ≡ d.db.jobs
  insert_canonical-jobs (inl fault) spec now_ms = refl
  insert_canonical-jobs (inr selector) spec now_ms =
      after_board-jobs _ d _
      ∙ Board-insert-jobs (record spec { probe_selector = selector }) now_ms d.db

  pub add_board-jobs :
      (spec : BoardSpec) (now_ms : ℕ) → (add_board spec now_ms d).0.db.jobs ≡ d.db.jobs
  unfolding add_board
  add_board-jobs spec now_ms = elim (Bool-cases (is_healthy spec.health)) [
    | inl well ↦ rw well (insert_canonical-jobs (canonicalize spec.probe_selector) spec now_ms)
    | inr sick ↦ rw sick refl
  ]

  pub quarantine_board-jobs :
      (id reason : String) → (quarantine_board id reason d).0.db.jobs ≡ d.db.jobs
  unfolding quarantine_board
  quarantine_board-jobs id reason = after_board-jobs _ d _ ∙ Board-quarantine-jobs id reason d.db

  pub unquarantine_board-jobs : (id : String) → (unquarantine_board id d).0.db.jobs ≡ d.db.jobs
  unfolding unquarantine_board
  unquarantine_board-jobs id = after_board-jobs _ d _ ∙ Board-unquarantine-jobs id d.db

  pub delete_board-jobs : (id : String) → (delete_board id d).0.db.jobs ≡ d.db.jobs
  unfolding delete_board
  delete_board-jobs id = after_board-jobs _ d _ ∙ Board-delete-jobs id d.db

  pub purge_stable : (boards : Bool) → P [] → P (purge boards d).0.db.jobs
  unfolding purge refresh_inventory
  purge_stable boards wiped_holds = elim (Bool-cases (ltb 0 (count_where blocks_purge d.db.jobs))) [
    | inl busy ↦ rw busy v
    | inr idle ↦ rw idle (subst P (sym (wiped-jobs boards)) wiped_holds)
  ]
    where
      wiped-jobs : (b : Bool) → (wiped b d).db.jobs ≡ []
      wiped-jobs true = refl
      wiped-jobs false = refl
