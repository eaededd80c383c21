-- ===== src/Db/Board/Removal.antt =====
-- When a board can be deleted: crates/paavo-db/src/board.rs, `delete`.
use paavo.Prelude.{
  ◌==◌, ltb, ◌≡◌, refl, Bool, String, none, some, List, [], ◌∷◌, arith, Bool-cases, inl, inr, ◌⊎◌,
  count_where, find_where, delete_where,
}
use paavo.Proto.Board.{is_healthy, is_text, quarantined}
use paavo.Db.Store.{
  Database, BoardRow, JobRow, DbError, Result, ok, err, panicked, Result-cases, not_found, conflict,
  board, quarantined_first, referenced_by,
}
use paavo.Db.Board.{has_board_id, find, delete_row, delete}

-- The jobs that name a board.
abbrev pub names : String → JobRow → Bool
names id j = is_text j.board_id id

pub record IsRemoved (id : String) (before after : Database) : Type 0 where
  pub was_quarantined :
      (row : BoardRow) × (find id before ≡ ok (some row)) × (row.spec.health ≡ quarantined)
  pub unreferenced : count_where (names id) before.jobs ≡ 0
  pub only_row : after ≡ record before { boards = delete_where (has_board_id id) before.boards }
  pub gone : find id after ≡ ok none

deleted-gone :
    (id : String) (rows : List BoardRow)
    → find_where (has_board_id id) (delete_where (has_board_id id) rows) ≡ none
unfolding find_where delete_where
deleted-gone id [] = refl
deleted-gone id (r ∷ rs) = elim (Bool-cases (has_board_id id r)) [
  | inl drop ↦ rw drop (deleted-gone id rs)
  | inr keep ↦ rw (keep, find_where, keep) (deleted-gone id rs)
]

delete_row-cases :
    (id : String) (db : Database)
    → (((delete_row id db).1 ≡ ok tt)
        × (count_where (names id) db.jobs ≡ 0)
        × ((delete_row id db).0 ≡ record db { boards = delete_where (has_board_id id) db.boards })
        × (find id (delete_row id db).0 ≡ ok none))
      ⊎ ((e : DbError) × (delete_row id db ≡ (db, err e)))
unfolding delete_row find
delete_row-cases id db = elim (Bool-cases (count_where (has_board_id id) db.boards == 0)) [
  | inl missing ↦ inr (not_found (board id), rw missing refl)
  | inr present ↦ elim (Bool-cases (ltb 0 (count_where (names id) db.jobs))) [
    | inl held ↦ inr (
      conflict (board id) (referenced_by (count_where (names id) db.jobs)),
      rw (present, held) refl,
    )
    | inr free ↦ inl (
        rw (present, free)
          (refl, ground (arith, free), refl, rw (deleted-gone id db.boards, find) refl))
  ]
]

-- A board is deleted only if it is quarantined and no job of the store named it; then its row goes
-- and nothing else changes. In every other case the answer is not a success and the store Stays as
-- it was.
pub delete-cases :
    (id : String) (db : Database)
    → (((delete id db).1 ≡ ok tt) × IsRemoved id db (delete id db).0)
      ⊎ ((r : Result (Unit {0})) × (¬ (r ≡ ok tt)) × (delete id db ≡ (db, r)))
unfolding delete
delete-cases id db = elim (Result-cases (find id db)) [
  | inl (none, e) ↦ inr (err (not_found (board id)), (λ h. cc), rw (e, delete) refl)
  | inl (some row, e) ↦ elim (Bool-cases (is_healthy row.spec.health)) [
    | inl well ↦
        inr (err (conflict (board id) quarantined_first), (λ h. cc), rw (e, delete, well) refl)
    | inr ill ↦ elim (delete_row-cases id db) [
      | inl (done, free, only, gone) ↦ inl (
        rw (e, delete, ill) done,
        rw (e, delete, ill)
            (record {
              was_quarantined = (row, e, ground (arith, ill));
              unreferenced = free;
              only_row = only;
              gone = gone;
            }),
      )
      | inr (why, refused) ↦ inr (err why, (λ h. cc), rw (e, delete, ill) refused)
    ]
  ]
  | inr (inl (why, e)) ↦ inr (err why, (λ h. cc), rw (e, delete) refl)
  | inr (inr (why, e)) ↦ inr (panicked why, (λ h. cc), rw (e, delete) refl)
]
