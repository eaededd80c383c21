-- ===== src/Db/Board.antt =====
-- crates/paavo-db/src/board.rs: the statements on the `board` table.
pub mod Removal
pub mod Pages
use paavo.Prelude.{
  ℕ, suc, ◌+◌, ◌==◌, ltb, str_eq, str_leb, Bool, true, false, ◌&&◌, not, String, Option, none, some,
  List, [], ◌∷◌, ◌++◌, if◌then◌else◌, rows_where, count_where, update_where, delete_where,
  find_where,
}
use paavo.Prelude.Sort.{sort_by}
use paavo.Proto.Job.{state_eq, running}
use paavo.Proto.Board.{
  BoardSpec, BoardSelector, BoardHealth, healthy, quarantined, is_healthy, is_text,
}
use paavo.Proto.Stats.{BoardHealthCounts}
use paavo.Db.Store.{
  Database, BoardRow, JobRow, Action, Result, ok, err, DbError, sqlite, unknown_enum, not_found,
  already_exists, conflict, Entity, board, primary_key, quarantined_first, referenced_by, ◌>>=◌,
  ◌>>◌, done, raise, query, decode_all, fits_u32,
}

abbrev pub has_board_id : String → BoardRow → Bool
has_board_id id row = str_eq row.spec.id id

unfoldable pub from_row : BoardRow → Result BoardRow
from_row row =
    if fits_u32 row.consecutive_infra_failures
    then ok row
    else err (unknown_enum "board.consecutive_infra_failures" "negative or > u32::MAX")

unfoldable pub require_one_row : ℕ → String → Action (Unit {0})
require_one_row n id = if n == 0 then raise (not_found (board id)) else done tt

-- `UPDATE board SET … WHERE id = …`, then the check of the rows affected.
unfoldable pub update_board : String → (BoardRow → BoardRow) → Action (Unit {0})
unfolding require_one_row
update_board id set db =
    require_one_row (count_where (has_board_id id) db.boards) id
      (record db { boards = update_where (has_board_id id) set db.boards })

unfoldable pub insert : BoardSpec → ℕ → Action (Unit {0})
insert spec now_ms db =
    if ltb 0 (count_where (has_board_id spec.id) db.boards)
    then (db, err (already_exists (board spec.id)))
    else (record db { boards = db.boards ++ row ∷ [] }, ok tt)
  where
    row : BoardRow
    row = record {
      spec = spec;
      quarantine_reason = none;
      consecutive_infra_failures = 0;
      last_used_at = none;
      created_at = now_ms;
    }

unfoldable pub find : String → Database → Result (Option BoardRow)
unfolding from_row
find id db = elim (find_where (has_board_id id) db.boards) [
  | none ↦ ok none
  | some row ↦ elim (from_row row) [
    | ok r ↦ ok (some r)
    | err e ↦ err e
    | Result.panicked why ↦ Result.panicked why
  ]
]

unfoldable pub get : String → Database → Result BoardRow
unfolding from_row
get id db = elim (find_where (has_board_id id) db.boards) [
  | none ↦ err (not_found (board id))
  | some row ↦ from_row row
]

abbrev pub id_leb : BoardRow → BoardRow → Bool
id_leb a b = str_leb a.spec.id b.spec.id

unfoldable pub list_all : Database → Result (List BoardRow)
unfolding from_row
list_all db = decode_all from_row (sort_by id_leb db.boards)

unfoldable pub health_counts : Database → Result BoardHealthCounts
health_counts db = ok (record {
  total = count_where (λ _. true) db.boards;
  quarantined = count_where (λ row. not (is_healthy row.spec.health)) db.boards;
})

-- `job.board_id = board.id AND job.state = 'running'`
abbrev pub runs_on : String → JobRow → Bool
runs_on id job = state_eq job.state running && is_text job.board_id id

abbrev pub instance_clause : Option String → BoardRow → Bool
instance_clause none row = true
instance_clause (some wanted) row = str_eq row.spec.id wanted

abbrev pub profile_clause : Option String → BoardRow → Bool
profile_clause none row = true
profile_clause (some wanted) row = is_text row.spec.wiring_profile wanted

-- The `WHERE` clause: kind, health, `NOT EXISTS` a running job on the board, then the optional parts.
unfoldable pub is_candidate : Database → BoardSelector → BoardRow → Bool
is_candidate db sel row =
    str_eq row.spec.kind sel.kind
    && (is_healthy row.spec.health
        && (count_where (runs_on row.spec.id) db.jobs == 0
            && (instance_clause sel.instance_id row && profile_clause sel.wiring_profile row)))

unfoldable pub find_healthy_for_selector : BoardSelector → Database → Result (List BoardRow)
unfolding from_row is_candidate
find_healthy_for_selector sel db = decode_all from_row (rows_where (is_candidate db sel) db.boards)

unfoldable pub touch_last_used : String → ℕ → Action (Unit {0})
unfolding update_board
touch_last_used id now_ms = update_board id (λ row. record row { last_used_at = some now_ms })

unfoldable pub bump_infra_failure : String → Action (Unit {0})
unfolding update_board
bump_infra_failure id =
    update_board id
      λ row. record row { consecutive_infra_failures = row.consecutive_infra_failures + 1 }

unfoldable pub reset_infra_failures : String → Action (Unit {0})
unfolding update_board
reset_infra_failures id = update_board id (λ row. record row { consecutive_infra_failures = 0 })

unfoldable pub quarantine : String → String → Action (Unit {0})
unfolding update_board
quarantine id reason = update_board id λ row. record row {
  spec = record (row.spec) { health = quarantined };
  quarantine_reason = some reason;
}

unfoldable pub unquarantine : String → Action (Unit {0})
unfolding update_board
unquarantine id = update_board id λ row. record row {
  spec = record (row.spec) { health = healthy };
  quarantine_reason = none;
  consecutive_infra_failures = 0;
}

-- `DELETE FROM board`, which the foreign key of `job.board_id` refuses while a job names the board.
unfoldable pub delete_row : String → Action (Unit {0})
delete_row id db =
    let referrers = count_where (λ (job : JobRow). is_text job.board_id id) db.jobs in
    let gone = record db { boards = delete_where (has_board_id id) db.boards } in
    if count_where (has_board_id id) db.boards == 0
    then (db, err (not_found (board id)))
    else if ltb 0 referrers
    then (db, err (conflict (board id) (referenced_by referrers)))
    else (gone, ok tt)

abbrev delete_found : String → Option BoardRow → Action (Unit {0})
delete_found id none = raise (not_found (board id))
delete_found id (some row) =
    if is_healthy row.spec.health
    then raise (conflict (board id) quarantined_first)
    else delete_row id

unfoldable pub delete : String → Action (Unit {0})
unfolding find delete_row
delete id = do row ← query (find id); delete_found id row
