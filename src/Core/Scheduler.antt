-- ===== src/Core/Scheduler.antt =====
-- crates/paavo-core/src/scheduler.rs: which job runs next, and on which board.
pub mod Order
pub mod Scan
pub mod Loop
pub mod Runnable
pub mod Buildable
pub mod Boards
pub mod Overflow
pub mod Progress
use paavo.Prelude.{
  ℕ, ◌+◌, ◌==◌, ltb, leb, str_eq, str_leb, Bool, true, false, ◌&&◌, ◌||◌, not, String, Option, none,
  some, List, [], ◌∷◌, map, if◌then◌else◌, find_where, count_where,
}
use paavo.Prelude.Sort.{sort_by}
use paavo.Proto.Job.{Priority, interactive, is_scheduled, weight}
use paavo.Db.Store.{Database, BoardRow, JobRow, Result, ok, err, panicked}
use paavo.Db.Board.{find_healthy_for_selector}
use paavo.Db.Job.Queries.{list_submitted, list_awaiting_board, building_tar_blake3s, dispatch_leb}

abbrev pub max_submitted_scan : ℕ
max_submitted_scan = 200

pub record ScheduledJob : Type 0 where
  pub job : JobRow
  pub board : BoardRow

-- `now_ms - submitted_at >= starvation_threshold_ms` on `i64`, written without the difference.
unfoldable pub promote : ℕ → ℕ → JobRow → JobRow
promote threshold_ms now_ms j =
    if is_scheduled j.priority && leb (j.submitted_at + threshold_ms) now_ms
    then record j { priority = interactive }
    else j

-- `promoted`: the scan with starved jobs promoted, sorted by the dispatch key.
unfoldable pub promoted : ℕ → ℕ → List JobRow → List JobRow
unfolding promote
promoted threshold_ms now_ms jobs = sort_by dispatch_leb (map (promote threshold_ms now_ms) jobs)

-- Never used first, then the least recently used, then by id.
abbrev pub lru_leb : BoardRow → BoardRow → Bool
lru_leb a b = elim a.last_used_at [
  | none ↦ elim b.last_used_at [ none ↦ str_leb a.spec.id b.spec.id | some y ↦ true ]
  | some x ↦ elim b.last_used_at [
    | none ↦ false
    | some y ↦ ltb x y || (x == y && str_leb a.spec.id b.spec.id)
  ]
]

abbrev pub first {ℓ} : {A : Type ℓ} → List A → Option A
first [] = none
first (x ∷ xs) = some x

unfoldable pub lru_pick : List BoardRow → Option BoardRow
lru_pick boards = first (sort_by lru_leb boards)

-- What one round of the loop over the jobs does with the boards that it finds.
abbrev pub pick_or {ℓ} :
    {A : Type ℓ} → Result (List BoardRow) → (BoardRow → A) → Result (Option A) → Result (Option A)
pick_or (ok boards) found rest = elim (lru_pick boards) [
  | none ↦ rest
  | some b ↦ ok (some (found b))
]
pick_or (err e) found rest = err e
pick_or (panicked why) found rest = panicked why

unfoldable pub first_dispatchable : Database → List JobRow → Result (Option ScheduledJob)
first_dispatchable db [] = ok none
first_dispatchable db (j ∷ js) =
    let rest = first_dispatchable db js in
    pick_or (find_healthy_for_selector j.board_selector db) (λ b. record { job = j; board = b })
      rest

abbrev pub on_ok {ℓ κ} : {A : Type ℓ} {B : Type κ} → Result A → (A → Result B) → Result B
on_ok (ok a) f = f a
on_ok (err e) f = err e
on_ok (panicked why) f = panicked why

unfoldable pub pick_next : ℕ → ℕ → Database → Result (Option ScheduledJob)
unfolding promoted first_dispatchable
pick_next threshold_ms now_ms db =
    on_ok (list_submitted max_submitted_scan db)
      λ jobs. first_dispatchable db (promoted threshold_ms now_ms jobs)

unfoldable pub pick_runnable : ℕ → ℕ → Database → Result (Option ScheduledJob)
unfolding promoted first_dispatchable
pick_runnable threshold_ms now_ms db =
    on_ok (list_awaiting_board max_submitted_scan db)
      λ jobs. first_dispatchable db (promoted threshold_ms now_ms jobs)

-- `!building.contains(&j.tar_blake3)`
abbrev pub is_buildable : List String → JobRow → Bool
is_buildable building j = count_where (λ t. str_eq t j.tar_blake3) building == 0

unfoldable pub pick_buildable : ℕ → ℕ → Database → Result (Option JobRow)
unfolding promoted
pick_buildable threshold_ms now_ms db = on_ok (list_submitted max_submitted_scan db) λ jobs.
    ok (find_where (is_buildable (building_tar_blake3s db)) (promoted threshold_ms now_ms jobs))
