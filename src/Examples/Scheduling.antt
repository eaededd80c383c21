-- ===== src/Examples/Scheduling.antt =====
-- The theorems on the scheduler, tried on small queues.
use paavo.Prelude.{
  All, All-mem, List, ◌≤◌, ◌≡◌, refl, false, none, some, [], ◌∷◌, Memᴰ, head, arith, count_where,
  rows_where, find_where, ◌↔◌,
}
use paavo.Prelude.Sort.{sort_by}
use paavo.Proto.Job.{weight, submitted, building, awaiting_board, is_scheduled}
use paavo.Db.Store.{BoardRow, Database, JobRow, ok, decode_all}
use paavo.Db.Board.{find_healthy_for_selector, from_row}
use paavo.Db.Job
use paavo.Db.Job.{in_state}
use paavo.Db.Job.Queries.{
  list_awaiting_board, list_submitted, list_in_dispatch_order, building_tar_blake3s,
}
use paavo.Core.Scheduler.{
  ScheduledJob, promote, promoted, pick_runnable, pick_buildable, lru_pick, first_dispatchable,
  max_submitted_scan,
}
use paavo.Core.Scheduler.Boards.{IsAvailable, find_healthy_for_selector_exact}
use paavo.Core.Scheduler.Runnable.{IsRunnablePick, CouldRun, pick_runnable_best, pick_runnable_idle}
use paavo.Core.Scheduler.Buildable.{
  IsBuildablePick, CouldBuild, pick_buildable_best, pick_buildable_idle,
}
use paavo.Core.Scheduler.Progress.{IsReadable, pick_runnable_progress, pick_buildable_progress}
use paavo.Db.Board
use paavo.Proto.Board.{matches}
use paavo.Core.Scheduler.Overflow.{interactive_in, list_in_dispatch_order-interactive_only}
use paavo.Examples.{
  desk, rack, nightly, urgent, starved, built, queue_db, ready_db, busy_db, any_nrf,
}

-- At 75 the job from 10 has starved for the threshold of 60, so it goes first, to the board that
-- has rested for longest.
abbrev pick : ScheduledJob
pick = record { job = promote 60 75 (built starved); board = rack }

picks_starved : pick_runnable 60 75 ready_db ≡ ok (some pick)
unfolding pick_runnable list_awaiting_board list_in_dispatch_order rows_where sort_by decode_all
    promoted promote first_dispatchable find_healthy_for_selector from_row Job.from_row count_where
    lru_pick weight
picks_starved = refl

few_waiting : count_where (in_state awaiting_board) ready_db.jobs ≤ max_submitted_scan
unfolding count_where
few_waiting = omega arith

pick_runnable_best_example : (j : JobRow) × IsRunnablePick 60 75 ready_db j pick
pick_runnable_best_example = pick_runnable_best 60 75 ready_db few_waiting {s = pick} picks_starved

nothing_free : pick_runnable 60 75 busy_db ≡ ok none
unfolding pick_runnable list_awaiting_board list_in_dispatch_order rows_where sort_by decode_all
    promoted promote first_dispatchable find_healthy_for_selector from_row Job.from_row count_where
    lru_pick weight
nothing_free = refl

one_waiting : count_where (in_state awaiting_board) busy_db.jobs ≤ max_submitted_scan
unfolding count_where
one_waiting = omega arith

pick_runnable_idle_example : ¬ CouldRun busy_db (built nightly) rack
pick_runnable_idle_example =
    pick_runnable_idle 60 75 busy_db one_waiting nothing_free (built nightly) rack

builds_starved : pick_buildable 60 75 queue_db ≡ ok (some (promote 60 75 starved))
unfolding pick_buildable list_submitted list_in_dispatch_order rows_where sort_by decode_all
    promoted promote Job.from_row count_where find_where building_tar_blake3s weight
builds_starved = refl

few_submitted : count_where (in_state submitted) queue_db.jobs ≤ max_submitted_scan
unfolding count_where
few_submitted = omega arith

pick_buildable_best_example :
    (j : JobRow) × IsBuildablePick 60 75 queue_db j (promote 60 75 starved)
pick_buildable_best_example =
    pick_buildable_best 60 75 queue_db few_submitted {p = promote 60 75 starved} builds_starved

-- The tar of the one submitted job is being built for another.
abbrev same_tar_db : Database
same_tar_db = record (queue_db) {
  jobs = nightly ∷ record nightly { id = 7; state = building; started_at = some 120 } ∷ [];
}

builds_nothing : pick_buildable 60 75 same_tar_db ≡ ok none
unfolding pick_buildable list_submitted list_in_dispatch_order rows_where sort_by decode_all
    promoted promote Job.from_row count_where find_where building_tar_blake3s weight
builds_nothing = refl

one_submitted : count_where (in_state submitted) same_tar_db.jobs ≤ max_submitted_scan
unfolding count_where
one_submitted = omega arith

pick_buildable_idle_example : ¬ CouldBuild same_tar_db nightly
pick_buildable_idle_example =
    pick_buildable_idle 60 75 same_tar_db one_submitted builds_nothing nightly

-- A scan of one row reads the urgent job, and not the one that was submitted long before it.
one_scanned : list_in_dispatch_order submitted 1 queue_db ≡ ok (urgent ∷ [])
unfolding list_in_dispatch_order rows_where sort_by decode_all Job.from_row weight
one_scanned = refl

one_urgent : 1 ≤ count_where (interactive_in submitted) queue_db.jobs
unfolding count_where
one_urgent = omega arith

list_in_dispatch_order-interactive_only_example : is_scheduled urgent.priority ≡ false
list_in_dispatch_order-interactive_only_example =
    list_in_dispatch_order-interactive_only submitted 1 queue_db {jobs = urgent ∷ []} one_scanned
      one_urgent urgent (head refl)

both_found : find_healthy_for_selector any_nrf queue_db ≡ ok (desk ∷ rack ∷ [])
unfolding find_healthy_for_selector rows_where decode_all from_row count_where
both_found = refl

find_healthy_for_selector_exact_example :
    Memᴰ rack (desk ∷ rack ∷ []) ↔ IsAvailable queue_db any_nrf rack
find_healthy_for_selector_exact_example =
    find_healthy_for_selector_exact queue_db any_nrf {found = desk ∷ rack ∷ []} rack both_found

readable_rows :
    (rows : List JobRow)
    → All (λ j. Job.from_row j ≡ ok j) rows
    → (j : JobRow) → Memᴰ j rows
    → Job.from_row j ≡ ok j
readable_rows rows h j m = All-mem (λ i. Job.from_row i ≡ ok i) rows h j m

two_boards_read : (b : BoardRow) → Memᴰ b (desk ∷ rack ∷ []) → Board.from_row b ≡ ok b
unfolding Board.from_row
two_boards_read b m =
    All-mem (λ c. Board.from_row c ≡ ok c) (desk ∷ rack ∷ []) (refl, (refl, tt)) b m

ready_db-IsReadable : IsReadable ready_db
unfolding Job.from_row
ready_db-IsReadable = record {
  jobs = readable_rows ready_db.jobs (refl, (refl, tt));
  boards = two_boards_read;
}

queue_db-IsReadable : IsReadable queue_db
unfolding Job.from_row
queue_db-IsReadable = record {
  jobs = readable_rows queue_db.jobs (refl, (refl, (refl, tt)));
  boards = two_boards_read;
}

nightly_on_desk : CouldRun ready_db (built nightly) desk
unfolding matches count_where
nightly_on_desk = record {
  queued = head refl;
  waiting = refl;
  available = record { registered = head refl; in_health = refl; fits = refl; unused = refl };
}

pick_runnable_progress_example : (s : ScheduledJob) × (pick_runnable 60 75 ready_db ≡ ok (some s))
pick_runnable_progress_example =
    pick_runnable_progress ready_db ready_db-IsReadable 60 75 few_waiting (built nightly) desk
      nightly_on_desk

nightly_buildable : CouldBuild queue_db nightly
unfolding count_where
nightly_buildable = record { queued = head refl; waiting = refl; unserved = refl }

pick_buildable_progress_example : (p : JobRow) × (pick_buildable 60 75 queue_db ≡ ok (some p))
pick_buildable_progress_example =
    pick_buildable_progress queue_db queue_db-IsReadable 60 75 few_submitted nightly
      nightly_buildable
