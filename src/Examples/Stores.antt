-- ===== src/Examples/Stores.antt =====
-- The theorems on the store and on the rules over it, tried on small tables.
use paavo.Prelude.{
  Memᴰ, ◌+◌, ◌≤◌, ◌<◌, ◌≡◌, ◌⊎◌, inl, inr, subst, str_eq, str_eq→eq, refl, Bool, true, false, some,
  List, [], ◌∷◌, ◌++◌, head, arith, count_where, find_where, update_where, Bool-cases,
  if◌then◌else◌, length, leb, ◌&&◌,
}
use paavo.Proto.Job.{JobId, JobOutcome, interactive, submitted, infra_err, test_err}
use paavo.Proto.Board.{matches}
use paavo.Db.Store.{
  Database, BoardRow, JobRow, BuildCacheEntry, Result, ok, empty, fits_u32, fits_i64,
}
use paavo.Db.Board
use paavo.Db.Board.Removal.{IsRemoved, delete-cases}
use paavo.Db.Cache.{is_tar, evict_until_under}
use paavo.Db.Cache.Needed.{HasUniqueTars, IsEviction, evict_until_under_lem}
use paavo.Db.Job.{has_id, in_state, from_row}
use paavo.Db.Job.Queries.{list_page, count}
use paavo.Db.Job.Moves.{insert, finalized}
use paavo.Db.Job.Restart.{is_in_flight, interrupt_row, abort_interrupted_jobs}
use paavo.Db.Job.Sweep.{last_line, abort_interrupted_jobs-eq}
use paavo.Prelude.{map, rows_where}
use paavo.Db.Job.Views.{list_page-insert}
use paavo.Core.Scheduler.{max_submitted_scan}
use paavo.Core.Quarantine.{counts_toward_infra, apply_outcome_to_board}
use paavo.Core.Quarantine.Streak.{
  board_of, after_outcome, apply_outcome_to_board-found, apply_all, Survives, apply_all-streak,
}
use paavo.Core.Enqueue.{
  EnqueueRequest, Outcome, CoreError, enqueue_job, validate_enqueue, selector_matches_any,
  not_cancellable,
}
use paavo.Core.Enqueue.Admission.{IsAdmissible, enqueue_job-cases}
use paavo.Core.Cancel.{is_pending, user_abort, cancel_if_pending}
use paavo.Core.Cancel.Cases.{abort_at, cancel_if_pending-eq}
use paavo.Core.BuildCache.{hit, cache_lookup, cache_store}
use paavo.Core.BuildCache.Files.{cache_lookup-cache_store}
use paavo.Core.Unreadable.{IsWedged, enqueue_job-unreadable}
use paavo.Db.Job.Moves.{new_row}
use paavo.Examples.{
  rack, nightly, queue_db, busy_db, request, enqueue_of, disk, entry_of, spec_of, config,
}

-- Three failures of the infrastructure, with a failed test between the second and the third.
abbrev mixed : List (JobOutcome × Bool)
mixed =
    (JobOutcome.failed (infra_err "flash" "no probe"), true)
    ∷ (JobOutcome.failed (infra_err "flash" "no probe"), true)
    ∷ (JobOutcome.failed (test_err "assertion"), true)
    ∷ (JobOutcome.failed (infra_err "flash" "no probe"), false)
    ∷ []

rack_there : board_of "rack" queue_db ≡ some rack
unfolding find_where
rack_there = refl

room : rack.consecutive_infra_failures + length mixed < 0x1_0000_0000
room = omega arith

apply_all-streak_example :
    (after : BoardRow) × (board_of "rack"
        (apply_all config.auto_quarantine_reason "rack" 3 mixed queue_db)
      ≡ some after)
    × Survives 3 rack mixed after
apply_all-streak_example =
    apply_all-streak config.auto_quarantine_reason "rack" 3 mixed queue_db {row = rack} rack_there
      room

one_more_fits : fits_u32 (rack.consecutive_infra_failures + 1) ≡ true
one_more_fits = refl

abbrev no_probe : JobOutcome
no_probe = JobOutcome.failed (infra_err "flash" "no probe")

apply_outcome_to_board-found_example :
    ((apply_outcome_to_board config.auto_quarantine_reason "rack" no_probe true 1 queue_db).1
      ≡ ok (counts_toward_infra no_probe true && leb 1 (rack.consecutive_infra_failures + 1)))
    × (board_of "rack"
          (apply_outcome_to_board config.auto_quarantine_reason "rack" no_probe true 1 queue_db).0
        ≡ some (
            after_outcome config.auto_quarantine_reason 1 (counts_toward_infra no_probe true) rack))
apply_outcome_to_board-found_example =
    apply_outcome_to_board-found config.auto_quarantine_reason "rack" no_probe true 1 queue_db
      {row = rack} rack_there one_more_fits

distinct_ids : (id : JobId) → count_where (has_id id) busy_db.jobs ≤ 1
unfolding count_where
distinct_ids id = ground arith

abort_interrupted_jobs-eq_example :
    let after = abort_interrupted_jobs 900 busy_db in
    (after.1 ≡ ok (count_where is_in_flight busy_db.jobs))
    × (after.0.jobs ≡ update_where is_in_flight (interrupt_row 900) busy_db.jobs)
    × (after.0.frames
        ≡ busy_db.frames
          ++ map (last_line busy_db.frames 900) (rows_where is_in_flight busy_db.jobs))
abort_interrupted_jobs-eq_example = abort_interrupted_jobs-eq 900 busy_db distinct_ids tt

abbrev fourth : EnqueueRequest
fourth = enqueue_of (request 4 interactive "dd")

enqueue_job-cases_example :
    (IsAdmissible (spec_of "rack" ∷ []) fourth queue_db
      × (enqueue_job (spec_of "rack" ∷ []) fourth 300 queue_db ≡ (
        record (queue_db) { jobs = queue_db.jobs ++ new_row fourth.new 300 ∷ [] },
        Outcome.ok fourth.id,
      )))
    ⊎ ((¬ IsAdmissible (spec_of "rack" ∷ []) fourth queue_db)
        × ((e : CoreError) × (enqueue_job (spec_of "rack" ∷ []) fourth 300 queue_db
              ≡ (queue_db, Outcome.err e))))
enqueue_job-cases_example = enqueue_job-cases (spec_of "rack" ∷ []) fourth 300 queue_db

nightly_once : count_where (has_id nightly.id) queue_db.jobs ≤ 1
unfolding count_where
nightly_once = omega arith

nightly_readable : from_row nightly ≡ ok nightly
unfolding from_row
nightly_readable = refl

cancel_if_pending-eq_example : cancel_if_pending nightly.id 300 queue_db ≡ (
    if is_pending nightly.state
    then (
      record (queue_db) {
        jobs = update_where (has_id nightly.id) (finalized (abort_at 300)) queue_db.jobs;
      },
      Outcome.ok (some user_abort),
    )
    else (queue_db, Outcome.err (not_cancellable nightly.state)))
cancel_if_pending-eq_example =
    cancel_if_pending-eq queue_db nightly nightly_once (head refl) 300 nightly_readable

abbrev full_db : Database
full_db = record (empty) { cache = entry_of "aa" 5 60 ∷ entry_of "bb" 9 30 ∷ [] }

distinct_tars : HasUniqueTars full_db.cache
unfolding count_where
distinct_tars tar = elim (Bool-cases (str_eq "aa" tar)) [
  | inl e ↦
      subst (λ t. count_where (is_tar t) full_db.cache ≤ 1) (str_eq→eq "aa" tar e) (omega arith)
  | inr e ↦ ground (arith, e)
]

evict_until_under_lem_example :
    (rest : List BuildCacheEntry) × (out : List BuildCacheEntry) × (evict_until_under 50 full_db
      ≡ some (record (full_db) { cache = rest }, out))
    × IsEviction 50 full_db.cache rest out
evict_until_under_lem_example = evict_until_under_lem 50 full_db distinct_tars

-- An inactivity timeout of 2 ^ 63 ms.
abbrev endless : EnqueueRequest
endless =
    enqueue_of
      (record (request 5 interactive "ee") { inactivity_timeout_ms = 0x8000_0000_0000_0000 })

endless_accepted :
    (enqueue_job (spec_of "rack" ∷ []) endless 300 queue_db).1 ≡ Outcome.ok endless.id
unfolding enqueue_job validate_enqueue selector_matches_any insert count_where matches
endless_accepted = refl

endless_too_long : fits_i64 endless.inactivity_timeout_ms ≡ false
endless_too_long = refl

-- A later store, in which the other jobs have gone.
abbrev endless_row : JobRow
endless_row = new_row endless.new 300

abbrev endless_db : Database
endless_db = record (queue_db) { jobs = endless_row ∷ [] }

alone : count_where (has_id endless.id) endless_db.jobs ≤ 1
unfolding count_where
alone = omega arith

few : count_where (in_state submitted) endless_db.jobs ≤ max_submitted_scan
unfolding count_where
few = omega arith

enqueue_job-unreadable_example :
    Memᴰ endless_row (enqueue_job (spec_of "rack" ∷ []) endless 300 queue_db).0.jobs
    × IsWedged endless.id endless_db
enqueue_job-unreadable_example =
    enqueue_job-unreadable (spec_of "rack" ∷ []) endless 300 queue_db endless_db {id = endless.id}
      endless_accepted endless_too_long (head refl) alone few

can_store : (cache_store disk "aa" "/elf/aa.elf" 70 full_db).1 ≡ true
unfolding cache_store
can_store = refl

cache_lookup-cache_store_example :
    (cache_lookup disk "aa" 80 (cache_store disk "aa" "/elf/aa.elf" 70 full_db).0).1
    ≡ hit "/elf/aa.elf"
cache_lookup-cache_store_example =
    cache_lookup-cache_store disk "aa" "/elf/aa.elf" 70 80 full_db can_store

delete-cases_example :
    (((Board.delete "rack" queue_db).1 ≡ ok tt)
      × IsRemoved "rack" queue_db (Board.delete "rack" queue_db).0)
    ⊎ ((r : Result (Unit {0})) × (¬ (r ≡ ok tt)) × (Board.delete "rack" queue_db ≡ (queue_db, r)))
delete-cases_example = delete-cases "rack" queue_db

list_page-insert_example :
    (list_page (some 50) 1 10 (insert fourth.new 300 queue_db).0
      ≡ list_page (some 50) 1 10 queue_db)
    × (count (some 50) (insert fourth.new 300 queue_db).0 ≡ count (some 50) queue_db)
list_page-insert_example = list_page-insert 50 1 10 fourth.new 300 queue_db (omega arith)
