-- ===== src/Db/Job/Keeps.antt =====
-- Each statement on the `job` table keeps it valid. The two claims, of a board and of a tar, need
-- what the scheduler has checked.
use native.Mathlib.Decide.{ℕ_discrete}
use paavo.Prelude.{
  Memᴰ, ℕ, ◌==◌, ltb, ◌≡◌, refl, subst, true, ◌&&◌, String, str_eq, str_eq→eq, some, List, [], ◌∷◌,
  arith, All-append, Bool-cases, inl, inr, count_where, update_where, count_where-append,
  count_where-update-le,
}
use paavo.Proto.Job.{JobId, JobState, submitted, building, running, awaiting_board}
use paavo.Db.Store.{Database, JobRow}
use paavo.Db.Board.{runs_on, has_board_id}
use paavo.Db.Job.{has_id, builds}
use paavo.Db.Job.Moves.{
  NewJob, new_row, is_at, move, move_onto, insert, transition_submitted_to_building,
  transition_building_to_awaiting_board, transition_awaiting_to_running,
}
use paavo.Db.Job.Invariant.{
  IsValid, IsConsistent, IsMove, moved_unique, moved-at_most_one, moved-IsConsistent,
}

pub insert-IsValid :
    (j : NewJob) (now_ms : ℕ) (db : Database)
    → IsValid db.jobs
    → IsValid (insert j now_ms db).0.jobs
unfolding insert count_where
insert-IsValid j now_ms db v = elim (Bool-cases (ltb 0 (count_where (has_id j.id) db.jobs))) [
  | inl taken ↦ rw taken v
  | inr free ↦ rw free (record {
    unique = λ id.
        ground (arith, count_where-append (has_id id) db.jobs (new_row j now_ms ∷ []), v.unique id);
    exclusive = λ b.
        ground
          (arith, count_where-append (runs_on b) db.jobs (new_row j now_ms ∷ []), v.exclusive b);
    single_flight = λ tar. ground (
      arith,
      count_where-append (builds tar) db.jobs (new_row j now_ms ∷ []),
      v.single_flight tar,
    );
    consistent =
        All-append IsConsistent db.jobs (new_row j now_ms ∷ []) v.consistent
          (record { finished = refl; progress = (refl, refl, refl) }, tt);
  })
]

move_cases {κ} :
    (P : List JobRow → Type κ) (id : JobId) (from : JobState) (expected : String)
    (set : JobRow → JobRow) (db : Database)
    → P db.jobs
    → P (update_where (is_at id from) set db.jobs)
    → P (move id from expected set db).0.jobs
unfolding move
move_cases P id from expected set db kept moved =
    elim (Bool-cases (count_where (is_at id from) db.jobs == 0)) [
      | inl missing ↦ rw missing kept
      | inr present ↦ rw present moved
    ]

to_building-IsMove :
    (id : JobId) (now_ms : ℕ)
    → IsMove id submitted (λ row. record row { state = building; started_at = some now_ms })
to_building-IsMove id now_ms = record {
  same_id = λ row. refl;
  keeps_consistent = λ row at c. ground arith;
}

to_awaiting-IsMove :
    (id : JobId) (elf_path : String)
    → IsMove id building (λ row. record row { state = awaiting_board; elf_path = some elf_path })
to_awaiting-IsMove id elf_path = record {
  same_id = λ row. refl;
  keeps_consistent = λ row at c. ground arith;
}

to_running-IsMove :
    (id : JobId) (board_id : String)
    → IsMove id awaiting_board (λ row. record row { state = running; board_id = some board_id })
to_running-IsMove id board_id = record {
  same_id = λ row. refl;
  keeps_consistent = λ row at c. ground arith;
}

module _ (id : JobId) (db : Database) (v : IsValid db.jobs) where
  -- The claim of a build: no job of the same tar may be building.
  pub transition_submitted_to_building-IsValid :
      (now_ms : ℕ)
      → ((row : JobRow)
          → Memᴰ row db.jobs
          → is_at id submitted row ≡ true
          → count_where (builds row.tar_blake3) db.jobs ≡ 0)
      → IsValid (transition_submitted_to_building id now_ms db).0.jobs
  unfolding transition_submitted_to_building
  transition_submitted_to_building-IsValid now_ms unserved =
      move_cases IsValid id submitted _ _ db v (record {
        unique = moved_unique id submitted _ (to_building-IsMove id now_ms) v;
        exclusive = λ b. omega (
          arith,
          count_where-update-le (runs_on b) (is_at id submitted) set db.jobs (λ row m at now. cc),
          v.exclusive b,
        );
        single_flight = λ tar. elim (ℕ_discrete (count_where (builds tar) db.jobs) 0) [
          | yes free ↦
              moved-at_most_one id submitted set (to_building-IsMove id now_ms) v (builds tar) free
          | no busy ↦ omega (
            arith,
            count_where-update-le (builds tar) (is_at id submitted) set db.jobs (λ row m at now.
                absurd (
                  busy (
                    subst (λ t. count_where (builds t) db.jobs ≡ 0)
                      (str_eq→eq row.tar_blake3 tar now) (unserved row m at)))),
            v.single_flight tar,
          )
        ];
        consistent = moved-IsConsistent id submitted _ (to_building-IsMove id now_ms) v;
      })
    where
      set : JobRow → JobRow
      set row = record row { state = building; started_at = some now_ms }

  pub transition_building_to_awaiting_board-IsValid :
      (elf_path : String) → IsValid (transition_building_to_awaiting_board id elf_path db).0.jobs
  unfolding transition_building_to_awaiting_board
  transition_building_to_awaiting_board-IsValid elf_path =
      move_cases IsValid id building _ _ db v (record {
        unique = moved_unique id building _ (to_awaiting-IsMove id elf_path) v;
        exclusive = λ b. omega (
          arith,
          count_where-update-le (runs_on b) (is_at id building)
              (λ row. record row { state = awaiting_board; elf_path = some elf_path }) db.jobs
              (λ row m at now. cc),
          v.exclusive b,
        );
        single_flight = λ tar. omega (
          arith,
          count_where-update-le (builds tar) (is_at id building)
              (λ row. record row { state = awaiting_board; elf_path = some elf_path }) db.jobs
              (λ row m at now. cc),
          v.single_flight tar,
        );
        consistent = moved-IsConsistent id building _ (to_awaiting-IsMove id elf_path) v;
      })

  -- The claim of a board: no job may be running on it.
  pub transition_awaiting_to_running-IsValid :
      (board_id : String)
      → count_where (runs_on board_id) db.jobs ≡ 0
      → IsValid (transition_awaiting_to_running id board_id db).0.jobs
  unfolding transition_awaiting_to_running move_onto
  transition_awaiting_to_running-IsValid board_id unused =
      elim (Bool-cases (
        ltb 0 (count_where (is_at id awaiting_board) db.jobs)
        && count_where (has_board_id board_id) db.boards == 0)) [
          | inl no_board ↦ rw no_board v
          | inr present ↦ rw present (
              move_cases IsValid id awaiting_board _ _ db v (record {
                unique = moved_unique id awaiting_board _ (to_running-IsMove id board_id) v;
                exclusive = λ b. elim (Bool-cases (str_eq board_id b)) [
                  | inl same ↦
                      moved-at_most_one id awaiting_board set (to_running-IsMove id board_id) v
                        (runs_on b)
                        (subst (λ c. count_where (runs_on c) db.jobs ≡ 0)
                          (str_eq→eq board_id b same) unused)
                  | inr other ↦ omega (
                    arith,
                    count_where-update-le (runs_on b) (is_at id awaiting_board) set db.jobs
                        (λ row m at now. cc),
                    v.exclusive b,
                  )
                ];
                single_flight = λ tar. omega (
                  arith,
                  count_where-update-le (builds tar) (is_at id awaiting_board) set db.jobs
                      (λ row m at now. cc),
                  v.single_flight tar,
                );
                consistent =
                    moved-IsConsistent id awaiting_board _ (to_running-IsMove id board_id) v;
              }))
        ]
    where
      set : JobRow → JobRow
      set row = record row { state = running; board_id = some board_id }
