-- ===== src/Core/Scheduler/Loop.antt =====
-- The loop of `pick_next` and `pick_runnable`: the first job of the list that finds a board, on the
-- board that was unused for longest.
use paavo.Prelude.{
  ℕ, ◌≡◌, refl, subst, ◌⊎◌, inl, inr, Option, none, some, List, [], ◌∷◌, Memᴰ, head, tail, arith,
  All-mem, cases_cons,
}
use paavo.Prelude.Sort.{IsOrdered}
use paavo.Db.Store.{Database, BoardRow, JobRow, Result, ok, err, panicked}
use paavo.Db.Job.Queries.{list_awaiting_board}
use paavo.Db.Board.{find_healthy_for_selector}
use paavo.Core.Scheduler.{
  on_ok, ScheduledJob, max_submitted_scan, promoted, lru_pick, pick_or, first_dispatchable,
  pick_runnable,
}
use paavo.Core.Scheduler.Order.{Precedes, UsedNoLater}
use paavo.Core.Scheduler.Boards.{
  IsAvailable, find_healthy_for_selector_exact, lru_pick-none, lru_pick-some,
}
use paavo.Core.Scheduler.Scan.{promoted-IsOrdered}

pub Precedes-refl : (j : JobRow) → Precedes j j
Precedes-refl j = omega arith

pick_or-some {ℓ} :
    {A : Type ℓ} (r : Result (List BoardRow)) (found : BoardRow → A) (rest : Result (Option A))
    {x : A}
    → pick_or r found rest ≡ ok (some x)
    → (bs : List BoardRow) × (r ≡ ok bs)
      × (((b : BoardRow) × (lru_pick bs ≡ some b) × (found b ≡ x))
          ⊎ ((lru_pick bs ≡ none) × (rest ≡ ok (some x))))
pick_or-some (ok bs) found rest {x} h = (bs, refl, which (lru_pick bs) refl h)
  where
    which :
        (o : Option BoardRow)
        → lru_pick bs ≡ o
        → (elim o [ none ↦ rest | some b ↦ ok (some (found b)) ]) ≡ ok (some x)
        → ((b : BoardRow) × (lru_pick bs ≡ some b) × (found b ≡ x))
          ⊎ ((lru_pick bs ≡ none) × (rest ≡ ok (some x)))
    which none e k = inr (e, k)
    which (some b) e k = inl (b, e, cc)
pick_or-some (err e) found rest h = cc
pick_or-some (panicked why) found rest h = cc

pick_or-none {ℓ} :
    {A : Type ℓ} (r : Result (List BoardRow)) (found : BoardRow → A) (rest : Result (Option A))
    → pick_or r found rest ≡ ok none
    → (bs : List BoardRow) × (r ≡ ok bs) × (lru_pick bs ≡ none) × (rest ≡ ok none)
pick_or-none (ok bs) found rest h =
    let (missed, later) = both (lru_pick bs) h in (bs, refl, missed, later)
  where
    both :
        (o : Option BoardRow)
        → (elim o [ none ↦ rest | some b ↦ ok (some (found b)) ]) ≡ ok none
        → (o ≡ none) × (rest ≡ ok none)
    both none k = (refl, k)
    both (some b) k = cc
pick_or-none (err e) found rest h = cc
pick_or-none (panicked why) found rest h = cc

-- The board is available to the job, and no available one has been unused for longer.
pub record IsBestBoard (db : Database) (j : JobRow) (b : BoardRow) : Type 0 where
  pub available : IsAvailable db j.board_selector b
  pub longest_unused : (c : BoardRow) → IsAvailable db j.board_selector c → UsedNoLater b c

-- Of these jobs, the picked one is the first that has an available board.
pub record IsBestPick (db : Database) (js : List JobRow) (s : ScheduledJob) : Type 0 where
  pub listed : Memᴰ s.job js
  pub on_best_board : IsBestBoard db s.job s.board
  pub first_served :
      (k : JobRow)
      → Memᴰ k js
      → (b : BoardRow) → IsAvailable db k.board_selector b
      → Precedes s.job k

module _ (db : Database) where
  board_picked :
      (j : JobRow) {boards : List BoardRow} {b : BoardRow}
      → find_healthy_for_selector j.board_selector db ≡ ok boards
      → lru_pick boards ≡ some b
      → IsBestBoard db j b
  board_picked j {boards} {b} found picked =
      let (m, oldest) = lru_pick-some boards picked in
      record {
        available = (find_healthy_for_selector_exact db j.board_selector b found).0 m;
        longest_unused =
            λ c a. oldest c ((find_healthy_for_selector_exact db j.board_selector c found).1 a);
      }

  none-IsAvailable :
      (j : JobRow) {boards : List BoardRow}
      → find_healthy_for_selector j.board_selector db ≡ ok boards
      → lru_pick boards ≡ none
      → (b : BoardRow) → ¬ IsAvailable db j.board_selector b
  none-IsAvailable j {boards} found missed b a =
      let m = (find_healthy_for_selector_exact db j.board_selector b found).1 a in
      not_in (subst (Memᴰ b) (lru_pick-none boards missed) m)
    where
      not_in : {b : BoardRow} → ¬ Memᴰ b []
      not_in m = elim m [ ]

  -- The loop over the jobs.
  pub first_dispatchable-best :
      (js : List JobRow) {s : ScheduledJob}
      → IsOrdered Precedes js
      → first_dispatchable db js ≡ ok (some s)
      → IsBestPick db js s
  unfolding first_dispatchable
  first_dispatchable-best [] ordered h = cc
  first_dispatchable-best (j ∷ js) {s} ordered h =
      let (boards, found, which) =
        pick_or-some (find_healthy_for_selector j.board_selector db) _ _ h in
      elim which [
        | inl (b, picked, e) ↦ subst (IsBestPick db (j ∷ js)) e (record {
          listed = head refl;
          on_best_board = board_picked j found picked;
          first_served = λ k m c a. All-mem (Precedes j) (j ∷ js) (Precedes-refl j, ordered.0) k m;
        })
        | inr (missed, later) ↦
            let rest = first_dispatchable-best js {s = s} ordered.1 later in
            record {
              listed = tail rest.listed;
              on_best_board = rest.on_best_board;
              first_served = λ k m c a. elim (cases_cons m) [
                | inl e ↦ absurd (
                    none-IsAvailable j found missed c
                      (subst (λ (i : JobRow). IsAvailable db i.board_selector c) e a))
                | inr m' ↦ rest.first_served k m' c a
              ];
            }
      ]

  pub first_dispatchable-none :
      (js : List JobRow)
      → first_dispatchable db js ≡ ok none
      → (k : JobRow) → Memᴰ k js
      → (b : BoardRow) → ¬ IsAvailable db k.board_selector b
  unfolding first_dispatchable
  first_dispatchable-none [] h k m b a = elim m [ ]
  first_dispatchable-none (j ∷ js) h k m b a =
      let (boards, found, missed, later) =
        pick_or-none (find_healthy_for_selector j.board_selector db) _ _ h in
      elim (cases_cons m) [
        | inl e ↦
            none-IsAvailable j found missed b
              (subst (λ (i : JobRow). IsAvailable db i.board_selector b) e a)
        | inr m' ↦ first_dispatchable-none js later k m' b a
      ]

pub on_ok-ok {ℓ κ} :
    {A : Type ℓ} {B : Type κ} (r : Result A) (f : A → Result B) {b : B}
    → on_ok r f ≡ ok b
    → (a : A) × (r ≡ ok a) × (f a ≡ ok b)
on_ok-ok (ok a) f h = (a, refl, h)
on_ok-ok (err e) f h = cc
on_ok-ok (panicked why) f h = cc

-- However long the queue is, the board of a pick is available to the job that is picked.
pub pick_runnable-IsAvailable :
    (threshold_ms now_ms : ℕ) (db : Database) {s : ScheduledJob}
    → pick_runnable threshold_ms now_ms db ≡ ok (some s)
    → IsAvailable db s.job.board_selector s.board
unfolding pick_runnable
pick_runnable-IsAvailable threshold_ms now_ms db {s} h =
    let (jobs, scanned, k) = on_ok-ok (list_awaiting_board max_submitted_scan db) _ h in
    let pick =
      first_dispatchable-best db (promoted threshold_ms now_ms jobs) {s = s}
        (promoted-IsOrdered threshold_ms now_ms jobs) k in
    pick.on_best_board.available
