-- ===== src/Daemon/Loops/Arrivals.antt =====
-- What can feed the loops of crates/paavod/src/dispatch.rs while they run.
use paavo.Prelude.{
  ℕ, ◌≤◌, ◌==◌, ltb, ◌≡◌, refl, Bool, true, false, ◌||◌, String, some, List, [], ◌∷◌, arith,
  Bool-cases, inl, inr, count_where, count_where-append, count_where-update-le, &&-eq_true,
}
use paavo.Proto.Job.{state_eq, JobId, JobState, building, awaiting_board, is_terminal}
use paavo.Db.Store.{Database, JobRow}
use paavo.Db.Job.{has_id, in_state}
use paavo.Db.Job.Moves.{
  NewJob, OutcomeRecord, new_row, insert, is_at, move, can_finalize, finalized, finalize,
  transition_building_to_awaiting_board,
}
use paavo.Db.Job.Invariant.{terminal_state_of}
use paavo.Db.Job.Stable.{IsStable}
use paavo.Daemon.State.{Config, Daemon}
use paavo.Daemon.Steps.{Event, handle}
use paavo.Daemon.History.{handle_stable}
use paavo.Daemon.Loops.{handle_all}

-- Jobs that wait for a board, and those that will when their build succeeds.
abbrev pub may_wait : JobRow → Bool
may_wait row = in_state building row || in_state awaiting_board row

abbrev AtMost : ℕ → List JobRow → Type 0
AtMost n jobs = count_where may_wait jobs ≤ n

AtMost-insert :
    (n : ℕ) (j : NewJob) (now_ms : ℕ) (db : Database)
    → AtMost n db.jobs
    → AtMost n (insert j now_ms db).0.jobs
unfolding insert count_where
AtMost-insert n j now_ms db v = elim (Bool-cases (ltb 0 (count_where (has_id j.id) db.jobs))) [
  | inl taken ↦ rw taken v
  | inr free ↦
      rw free (ground (arith, count_where-append may_wait db.jobs (new_row j now_ms ∷ []), v))
]

AtMost-advance :
    (n : ℕ) (id : JobId) (elf_path : String) (db : Database)
    → AtMost n db.jobs
    → AtMost n (transition_building_to_awaiting_board id elf_path db).0.jobs
unfolding transition_building_to_awaiting_board move
AtMost-advance n id elf_path db v =
    elim (Bool-cases (count_where (is_at id building) db.jobs == 0)) [
      | inl none_there ↦ rw none_there v
      | inr found ↦ rw found (
          omega (
            arith,
            v,
            count_where-update-le may_wait (is_at id building)
                (λ row. record row { state = awaiting_board; elf_path = some elf_path }) db.jobs
                (λ row m at _. rw (&&-eq_true (has_id id row) (in_state building row) at).1 refl),
          ))
    ]

AtMost-finalize :
    (n : ℕ) (id : JobId) (rec : OutcomeRecord) (db : Database)
    → rec.state ≡ terminal_state_of rec.outcome
    → AtMost n db.jobs
    → AtMost n (finalize id rec db).0.jobs
unfolding finalize
AtMost-finalize n id rec db agrees v = elim (Bool-cases (is_terminal rec.state)) [
  | inr going ↦ rw going v
  | inl terminal ↦ rw terminal (elim (Bool-cases (count_where (can_finalize id) db.jobs == 0)) [
    | inl missing ↦ rw missing v
    | inr found ↦ rw found (
        omega (
          arith,
          v,
          count_where-update-le may_wait (can_finalize id) (finalized rec) db.jobs
              (λ row m at k. cc (k, ended rec.state terminal)),
        ))
  ])
]
  where
    ended :
        (s : JobState)
        → is_terminal s ≡ true
        → (state_eq s building || state_eq s awaiting_board) ≡ false
    ended s h = ground arith

AtMost-IsStable : (n : ℕ) → IsStable (AtMost n)
AtMost-IsStable n = record {
  after_insert = AtMost-insert n;
  after_advance = AtMost-advance n;
  after_finalize = AtMost-finalize n;
}

AtMost-none : (n : ℕ) → AtMost n []
unfolding count_where
AtMost-none n = omega arith

-- Requests and tasks of other jobs add none of these.
pub handle_all-AtMost :
    (cfg : Config) (es : List Event) (n : ℕ) (d : Daemon)
    → count_where may_wait d.db.jobs ≤ n
    → count_where may_wait (handle_all cfg es d).db.jobs ≤ n
unfolding handle_all
handle_all-AtMost cfg [] n d v = v
handle_all-AtMost cfg (e ∷ es) n d v =
    handle_all-AtMost cfg es n (handle cfg e d)
      (handle_stable (AtMost n) (AtMost-IsStable n) cfg e d (λ _. AtMost-none n) v)
