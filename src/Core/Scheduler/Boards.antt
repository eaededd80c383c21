-- ===== src/Core/Scheduler/Boards.antt =====
-- Which boards a selector finds, and which of them is taken.
use paavo.Prelude.{
  ◌≡◌, ◌↔◌, refl, sym, subst, true, Option, none, some, String, str_eq_comm, List, [], ◌∷◌, Memᴰ,
  head, arith, All-mem, count_where, mem-rows_where, mem-rows_where_of,
}
use paavo.Prelude.Sort.{sort_by, mem-sort_by, mem-sort_by_of, sort_by-IsOrdered, IsOrdered}
use paavo.Proto.Board.{matches_instance, matches_profile, BoardSelector, healthy, matches}
use paavo.Db.Store.{Database, BoardRow, ok}
use paavo.Db.Board.{
  instance_clause, profile_clause, runs_on, is_candidate, find_healthy_for_selector, from_row,
}
use paavo.Db.Decode.{decode_all-eq, Board-from_row_same}
use paavo.Core.Scheduler.{lru_leb, lru_pick, first}
use paavo.Core.Scheduler.Order.{
  UsedNoLater, lru_leb→UsedNoLater, lru_leb→UsedNoLater_back, UsedNoLater-trans, UsedNoLater-refl,
}

-- A board that may take a job now: registered, healthy, matched by the selector of the protocol
-- crate, and with no running job on it.
pub record IsAvailable (db : Database) (sel : BoardSelector) (b : BoardRow) : Type 0 where
  pub registered : Memᴰ b db.boards
  pub in_health : b.spec.health ≡ healthy
  pub fits : matches sel b.spec ≡ true
  pub unused : count_where (runs_on b.spec.id) db.jobs ≡ 0

instance_clause-matches :
    (i : Option String) (b : BoardRow) → instance_clause i b ≡ matches_instance i b.spec.id
instance_clause-matches none b = refl
instance_clause-matches (some wanted) b = str_eq_comm b.spec.id wanted

profile_clause-matches :
    (p : Option String) (b : BoardRow)
    → profile_clause p b ≡ matches_profile p b.spec.wiring_profile
profile_clause-matches none b = refl
profile_clause-matches (some wanted) b = refl

-- The `WHERE` clause of SQL asks what `BoardSelector::matches` asks.
is_candidate_iff :
    (db : Database) (sel : BoardSelector) (b : BoardRow)
    → (is_candidate db sel b ≡ true) ↔ (
        (b.spec.health ≡ healthy)
        × (matches sel b.spec ≡ true)
        × (count_where (runs_on b.spec.id) db.jobs ≡ 0))
unfolding is_candidate matches
is_candidate_iff db sel b = ground (
  arith,
  str_eq_comm b.spec.kind sel.kind,
  instance_clause-matches sel.instance_id b,
  profile_clause-matches sel.wiring_profile b,
)

-- When the query of boards succeeds, it returns exactly the registered healthy boards that the
-- selector of the protocol matches and on which no job runs.
pub find_healthy_for_selector_exact :
    (db : Database) (sel : BoardSelector) {found : List BoardRow} (b : BoardRow)
    → find_healthy_for_selector sel db ≡ ok found
    → Memᴰ b found ↔ IsAvailable db sel b
unfolding find_healthy_for_selector
find_healthy_for_selector_exact db sel {found} b h =
    let rows = decode_all-eq from_row Board-from_row_same _ found h in
    let iff = is_candidate_iff db sel b in
    (
      λ m.
          let (registered, fits) = mem-rows_where (is_candidate db sel) db.boards (rw rows at m) in
          let facts = iff.0 fits in
          record { registered = registered; in_health = facts.0; fits = facts.1; unused = facts.2 },
      λ a. rw rows (
          mem-rows_where_of (is_candidate db sel) db.boards a.registered
            (iff.1 (a.in_health, a.fits, a.unused))),
    )

first-some :
    (bs : List BoardRow) {b : BoardRow} → first bs ≡ some b → (r : List BoardRow) × (bs ≡ b ∷ r)
first-some [] h = cc
first-some (x ∷ xs) h = (xs, ground arith)

pub lru_pick-none : (bs : List BoardRow) → lru_pick bs ≡ none → bs ≡ []
unfolding lru_pick
lru_pick-none [] h = refl
lru_pick-none (x ∷ xs) h =
    absurd (empty (sort_by lru_leb (x ∷ xs)) h (mem-sort_by_of lru_leb (x ∷ xs) (head refl)))
  where
    empty : (l : List BoardRow) → first l ≡ none → Memᴰ x l → ⊥
    empty [] e m = elim m [ ]
    empty (y ∷ ys) e m = cc

-- The board taken is one of those found, and none of them has been unused for longer.
pub lru_pick-some :
    (bs : List BoardRow) {b : BoardRow}
    → lru_pick bs ≡ some b
    → Memᴰ b bs × ((c : BoardRow) → Memᴰ c bs → UsedNoLater b c)
unfolding lru_pick
lru_pick-some bs {b} h =
    let (rest, e) = first-some (sort_by lru_leb bs) h in
    let ordered =
      sort_by-IsOrdered lru_leb UsedNoLater lru_leb→UsedNoLater lru_leb→UsedNoLater_back
        UsedNoLater-trans bs in
    let ordered' = subst (IsOrdered UsedNoLater) e ordered in
    (
      mem-sort_by lru_leb bs (subst (Memᴰ b) (sym e) (head refl)),
      λ c m.
          All-mem (UsedNoLater b) (b ∷ rest) (UsedNoLater-refl b, ordered'.0) c
            (subst (Memᴰ c) e (mem-sort_by_of lru_leb bs m)),
    )
