-- ===== src/Db/Job/Grows.antt =====
-- What the statements on the `job` table cannot do, but for the claims: start a run or a build.
use paavo.Prelude.{
  ℕ, ◌≤◌, ◌==◌, ltb, ◌≡◌, refl, sym, subst, Bool, true, false, String, List, [], ◌∷◌, ◌++◌, Memᴰ,
  head, tail, ◌⊎◌, inl, inr, arith, Bool-cases, count_where, update_where, mem-update_where,
  count_where-append, count_where-update-le, count_where-update-eq,
}
use paavo.Proto.Job.{
  JobId, JobState, state_eq, submitted, building, running, is_terminal, JobOutcome,
}
use paavo.Db.Store.{Database, JobRow}
use paavo.Db.Board.{runs_on}
use paavo.Db.Job.{has_id, in_state, builds}
use paavo.Db.Job.Moves.{
  NewJob, OutcomeRecord, new_row, insert, is_at, move, can_finalize, finalized, is_open, finalize,
  transition_building_to_awaiting_board,
}
use paavo.Db.Job.Invariant.{terminal_state_of}

pub record Grows (before after : List JobRow) : Type 0 where
  pub no_run : (b : String) → count_where (runs_on b) after ≤ count_where (runs_on b) before
  pub no_build : (tar : String) → count_where (builds tar) after ≤ count_where (builds tar) before
  -- A submitted row was there before, or its id was not.
  pub known :
      (row : JobRow)
      → Memᴰ row after
      → in_state submitted row ≡ true
      → Memᴰ row before ⊎ (count_where (has_id row.id) before ≡ 0)
  -- No job vanishes, unless all do.
  pub keeps_ids :
      ((id : JobId) → count_where (has_id id) before ≤ count_where (has_id id) after) ⊎ (after ≡ [])

pub Grows-refl : (jobs : List JobRow) → Grows jobs jobs
Grows-refl jobs = record {
  no_run = λ b. omega arith;
  no_build = λ tar. omega arith;
  known = λ row m at. inl m;
  keeps_ids = inl (λ id. omega arith);
}

pub Grows-wipe : (jobs : List JobRow) → Grows jobs []
unfolding count_where
Grows-wipe jobs = record {
  no_run = λ b. omega arith;
  no_build = λ tar. omega arith;
  known = λ row m at. elim m [ ];
  keeps_ids = inr refl;
}

mem-append_one :
    (jobs : List JobRow) (new : JobRow) {row : JobRow}
    → Memᴰ row (jobs ++ new ∷ [])
    → Memᴰ row jobs ⊎ (row ≡ new)
mem-append_one [] new (head e) = inr e
mem-append_one [] new (tail m) = elim m [ ]
mem-append_one (j ∷ js) new (head e) = inl (head e)
mem-append_one (j ∷ js) new (tail m) = elim (mem-append_one js new m) [
  | inl m' ↦ inl (tail m')
  | inr e ↦ inr e
]

pub insert-Grows :
    (j : NewJob) (now_ms : ℕ) (db : Database) → Grows db.jobs (insert j now_ms db).0.jobs
unfolding insert count_where
insert-Grows j now_ms db = elim (Bool-cases (ltb 0 (count_where (has_id j.id) db.jobs))) [
  | inl taken ↦ rw taken (Grows-refl db.jobs)
  | inr free ↦ rw free (record {
    no_run = λ b. ground (arith, count_where-append (runs_on b) db.jobs (new_row j now_ms ∷ []));
    no_build =
        λ tar. ground (arith, count_where-append (builds tar) db.jobs (new_row j now_ms ∷ []));
    known = λ row m at. elim (mem-append_one db.jobs (new_row j now_ms) m) [
      | inl m' ↦ inl m'
      | inr e ↦ inr (rw e (ground (arith, free)))
    ];
    keeps_ids =
        inl λ id. omega (arith, count_where-append (has_id id) db.jobs (new_row j now_ms ∷ []));
  })
]

module _ (p : JobRow → Bool) (set : JobRow → JobRow)
    (same_id : (row : JobRow) → (set row).id ≡ row.id)
    (leaves : (row : JobRow) → in_state submitted (set row) ≡ false)
    (runs : (b : String) (row : JobRow) → runs_on b (set row) ≡ true → runs_on b row ≡ true)
    (building : (tar : String) (row : JobRow)
      → builds tar (set row) ≡ true
      → builds tar row ≡ true) where
  update-Grows : (jobs : List JobRow) → Grows jobs (update_where p set jobs)
  update-Grows jobs = record {
    no_run = λ b. count_where-update-le (runs_on b) p set jobs (λ row m at. runs b row);
    no_build = λ tar. count_where-update-le (builds tar) p set jobs (λ row m at. building tar row);
    known = λ row m at.
        let (a, n, e) = mem-update_where p set jobs m in
        elim (Bool-cases (p a)) [
          | inl hit ↦ absurd (cc (leaves a, at, rw hit at e))
          | inr miss ↦ inl (subst (λ r. Memᴰ r jobs) (sym (rw miss at e)) n)
        ];
    keeps_ids = inl λ id.
        omega (arith, count_where-update-eq (has_id id) p set (λ row _. rw (same_id row)) jobs);
  }

pub transition_building_to_awaiting_board-Grows :
    (id : JobId) (elf_path : String) (db : Database)
    → Grows db.jobs (transition_building_to_awaiting_board id elf_path db).0.jobs
unfolding transition_building_to_awaiting_board move
transition_building_to_awaiting_board-Grows id elf_path db =
    elim (Bool-cases (count_where (is_at id building) db.jobs == 0)) [
      | inl missing ↦ rw missing (Grows-refl db.jobs)
      | inr present ↦ rw present (
          update-Grows (is_at id building) _ (λ row. refl) (λ row. refl) (λ b row h. cc)
            (λ tar row h. cc) db.jobs)
    ]

ends_of_outcome : (o : JobOutcome) → is_open (terminal_state_of o) ≡ false
ends_of_outcome o = ground arith

idle_of :
    (s : JobState)
    → is_open s ≡ false
    → (state_eq s submitted ≡ false) × (state_eq s running ≡ false) × (state_eq s building ≡ false)
idle_of s h = ground arith

pub finalize-Grows :
    (id : JobId) (rec : OutcomeRecord) (db : Database)
    → rec.state ≡ terminal_state_of rec.outcome
    → Grows db.jobs (finalize id rec db).0.jobs
unfolding finalize
finalize-Grows id rec db agrees = elim (Bool-cases (is_terminal rec.state)) [
  | inr going ↦ rw going (Grows-refl db.jobs)
  | inl terminal ↦ rw terminal (elim (Bool-cases (count_where (can_finalize id) db.jobs == 0)) [
    | inl missing ↦ rw missing (Grows-refl db.jobs)
    | inr present ↦ rw present (
        update-Grows (can_finalize id) (finalized rec) (λ row. refl) (λ row. idle.0)
          (λ b row h. absurd (ground (arith, h, idle.1)))
          (λ tar row h. absurd (ground (arith, h, idle.2))) db.jobs)
  ])
]
  where
    idle :
        (state_eq rec.state submitted ≡ false)
        × (state_eq rec.state running ≡ false)
        × (state_eq rec.state building ≡ false)
    idle = idle_of rec.state (rw agrees (ends_of_outcome rec.outcome))
