-- ===== src/Core/Quarantine/Streak.antt =====
-- What a series of outcomes does to a board, against a description that counts them.
use paavo.Prelude.{
  ℕ, ◌+◌, ◌<◌, leb, ◌≡◌, refl, ap, ◌∙◌, Bool, true, false, ◌&&◌, ◌||◌, not, String, Option, some,
  List, [], ◌∷◌, length, arith, Bool-cases, inl, inr, if◌then◌else◌, update_where, find_where,
  find_where-update, count_where-of_find,
}
use paavo.Proto.Job.{JobOutcome}
use paavo.Proto.Board.{is_healthy, quarantined}
use paavo.Db.Store.{Database, BoardRow, ok, fits_u32}
use paavo.Db.Board.{
  has_board_id, from_row, get, update_board, require_one_row, bump_infra_failure,
  reset_infra_failures, quarantine,
}
use paavo.Core.Quarantine.{counts_toward_infra, bump_and_check, apply_outcome_to_board}

abbrev bumped : BoardRow → BoardRow
bumped row = record row { consecutive_infra_failures = row.consecutive_infra_failures + 1 }

abbrev sick : String → BoardRow → BoardRow
sick reason row = record row {
  spec = record (row.spec) { health = quarantined };
  quarantine_reason = some reason;
}

-- The row after an outcome that counts.
abbrev pub struck : (ℕ → String) → ℕ → BoardRow → BoardRow
struck reason threshold row =
    if leb threshold (row.consecutive_infra_failures + 1)
    then sick (reason (row.consecutive_infra_failures + 1)) (bumped row)
    else bumped row

struck-counter :
    (reason : ℕ → String) (threshold : ℕ) (row : BoardRow)
    → (struck reason threshold row).consecutive_infra_failures ≡ row.consecutive_infra_failures + 1
struck-counter reason threshold row = ground arith

struck-health :
    (reason : ℕ → String) (threshold : ℕ) (row : BoardRow)
    → is_healthy (struck reason threshold row).spec.health
      ≡ (is_healthy row.spec.health && not (leb threshold (row.consecutive_infra_failures + 1)))
struck-health reason threshold row = ground arith

and_not :
    (h l r : Bool) {x y : Bool} → x ≡ (h && not l) → y ≡ r → (x && not y) ≡ (h && not (l || r))
and_not true true r e f = rw e
and_not true false r e f = rw (e, f)
and_not false l r e f = rw e

-- The row after any other.
abbrev pub spared : BoardRow → BoardRow
spared row = record row { consecutive_infra_failures = 0 }

abbrev pub board_of : String → Database → Option BoardRow
board_of id db = find_where (has_board_id id) db.boards

updated : String → (BoardRow → BoardRow) → Database → Database
updated id set db = record db { boards = update_where (has_board_id id) set db.boards }

update_board-ok :
    (id : String) (set : BoardRow → BoardRow) (db : Database) {row : BoardRow}
    → board_of id db ≡ some row
    → update_board id set db ≡ (updated id set db, ok tt)
unfolding update_board require_one_row updated
update_board-ok id set db found = rw (count_where-of_find (has_board_id id) db.boards found)

board_of-updated :
    (id : String) (set : BoardRow → BoardRow) (db : Database) {row : BoardRow}
    → ((b : BoardRow) → (set b).spec.id ≡ b.spec.id)
    → board_of id db ≡ some row
    → board_of id (updated id set db) ≡ some (set row)
unfolding updated
board_of-updated id set db same found =
    find_where-update (has_board_id id) set (λ b h. rw (same b) h) db.boards found

get-ok :
    (id : String) (db : Database) {row : BoardRow}
    → board_of id db ≡ some row
    → fits_u32 row.consecutive_infra_failures ≡ true
    → get id db ≡ ok row
unfolding get from_row
get-ok id db {row} found fits = rw (found, get, from_row, fits)

module _ (reason : ℕ → String) (id : String) (threshold : ℕ) (db : Database) {row : BoardRow}
    (found : board_of id db ≡ some row)
    (fits : fits_u32 (row.consecutive_infra_failures + 1) ≡ true) where
  bump_and_check-found :
      ((bump_and_check reason id threshold db).1
        ≡ ok (leb threshold (row.consecutive_infra_failures + 1)))
      × (board_of id (bump_and_check reason id threshold db).0 ≡ some (struck reason threshold row))
  unfolding bump_and_check bump_infra_failure quarantine
  bump_and_check-found =
      let at = board_of-updated id bumped db (λ b. refl) found in
      rw (update_board-ok id bumped db found, get-ok id (updated id bumped db) at fits)
        (elim (Bool-cases (leb threshold (row.consecutive_infra_failures + 1))) [
          | inl over ↦
              let text = reason (row.consecutive_infra_failures + 1) in
              rw (over, update_board-ok id (sick text) (updated id bumped db) at)
                (refl, board_of-updated id (sick text) (updated id bumped db) (λ b. refl) at)
          | inr under ↦ rw under (refl, at)
        ])

-- What one outcome does to its board.
abbrev pub after_outcome : (ℕ → String) → ℕ → Bool → BoardRow → BoardRow
after_outcome reason threshold counts row =
    if counts then struck reason threshold row else spared row

-- On a registered board whose counter has room in its 32 bits, an outcome that counts as an infra
-- failure adds one to the counter and quarantines the board if the counter reaches the threshold;
-- any other outcome resets the counter and leaves the health.
pub apply_outcome_to_board-found :
    (reason : ℕ → String) (id : String) (o : JobOutcome) (clean : Bool) (threshold : ℕ)
    (db : Database) {row : BoardRow}
    → board_of id db ≡ some row
    → fits_u32 (row.consecutive_infra_failures + 1) ≡ true
    → ((apply_outcome_to_board reason id o clean threshold db).1
        ≡ ok (counts_toward_infra o clean && leb threshold (row.consecutive_infra_failures + 1)))
      × (board_of id (apply_outcome_to_board reason id o clean threshold db).0
          ≡ some (after_outcome reason threshold (counts_toward_infra o clean) row))
unfolding apply_outcome_to_board reset_infra_failures
apply_outcome_to_board-found reason id o clean threshold db found fits =
    elim (Bool-cases (counts_toward_infra o clean)) [
      | inl bad ↦ rw bad (bump_and_check-found reason id threshold db found fits)
      | inr good ↦
          rw (good, update_board-ok id spared db found)
            (refl, board_of-updated id spared db (λ b. refl) found)
    ]

-- The outcomes of the jobs that a board ran, one after another.
abbrev pub apply_all : (ℕ → String) → String → ℕ → List (JobOutcome × Bool) → Database → Database
apply_all reason id threshold [] db = db
apply_all reason id threshold ((o, clean) ∷ os) db =
    apply_all reason id threshold os (apply_outcome_to_board reason id o clean threshold db).0

-- How many outcomes at the end of a series count, after `n` before it.
unfoldable pub streak : ℕ → List (JobOutcome × Bool) → ℕ
streak n [] = n
streak n ((o, clean) ∷ os) = if counts_toward_infra o clean then streak (n + 1) os else streak 0 os

-- Whether as many as `threshold` in a row count somewhere.
unfoldable pub reaches : ℕ → ℕ → List (JobOutcome × Bool) → Bool
reaches threshold n [] = false
reaches threshold n ((o, clean) ∷ os) =
    if counts_toward_infra o clean
    then leb threshold (n + 1) || reaches threshold (n + 1) os
    else reaches threshold 0 os

pub record Survives (threshold : ℕ) (row : BoardRow) (os : List (JobOutcome × Bool))
    (after : BoardRow) : Type 0 where
  pub counter : after.consecutive_infra_failures ≡ streak row.consecutive_infra_failures os
  pub health :
      is_healthy after.spec.health
      ≡ (is_healthy row.spec.health && not (reaches threshold row.consecutive_infra_failures os))

module _ (reason : ℕ → String) (id : String) (threshold : ℕ) where
  -- A series of outcomes leaves a registered board healthy exactly if it was healthy and never as
  -- many in a row as the threshold count as infra failures, and its counter is the number of those
  -- at the end that do, as long as the counter Stays within its 32 bits.
  pub apply_all-streak :
      (os : List (JobOutcome × Bool)) (db : Database) {row : BoardRow}
      → board_of id db ≡ some row
      → row.consecutive_infra_failures + length os < 0x1_0000_0000
      → (after : BoardRow) × (board_of id (apply_all reason id threshold os db) ≡ some after)
        × Survives threshold row os after
  unfolding streak reaches
  apply_all-streak [] db {row} found room =
      (row, found, record { counter = refl; health = ground arith })
  apply_all-streak ((o, clean) ∷ os) db {row} found room =
      let fits : fits_u32 (row.consecutive_infra_failures + 1) ≡ true = ground (arith, room) in
      let (answer, at) = apply_outcome_to_board-found reason id o clean threshold db found fits in
      elim (Bool-cases (counts_toward_infra o clean)) [
        | inl bad ↦
            let (after, there, s) =
              apply_all-streak os (apply_outcome_to_board reason id o clean threshold db).0
                {row = struck reason threshold row} (rw bad at at)
                (ground (arith, room, struck-counter reason threshold row)) in
            (
              after,
              there,
              record {
                counter =
                    rw (bad, streak)
                      (s.counter ∙ ap (λ n. streak n os) (struck-counter reason threshold row));
                health =
                    rw (bad, reaches)
                      (s.health
                        ∙ and_not (is_healthy row.spec.health)
                            (leb threshold (row.consecutive_infra_failures + 1)) _
                            (struck-health reason threshold row)
                            (ap (λ n. reaches threshold n os)
                              (struck-counter reason threshold row)));
              },
            )
        | inr good ↦
            let (after, there, s) =
              apply_all-streak os (apply_outcome_to_board reason id o clean threshold db).0
                {row = spared row} (rw good at at) (ground (arith, room)) in
            (
              after,
              there,
              record {
                counter = rw (good, streak) s.counter;
                health = rw (good, reaches) s.health;
              },
            )
      ]
