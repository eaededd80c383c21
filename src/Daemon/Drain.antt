-- ===== src/Daemon/Drain.antt =====
-- crates/paavod/src/shutdown.rs: the loop of `drain_with_grace`, as the readings that it takes.
use paavo.Prelude.{
  ℕ, ◌<◌, ◌≤◌, ◌≡◌, refl, sym, ap, ◌∙◌, inl, inr, leb, ◌==◌, Option, none, some, List, [], ◌∷◌,
  Memᴰ, head, tail, cases_cons, subst, arith, if◌then◌else◌, Bool-cases,
}
use paavo.Proto.Job.{JobId}
use paavo.Daemon.Registry.{
  RunCommand, daemon_shutdown, Channel, CancellationRegistry, entry, active, send_one, signal_all,
}

-- What the loop sees when it wakes: who is registered, and, a little later, the time and who is then.
abbrev pub Reading : Type 0
Reading = CancellationRegistry × ℕ × CancellationRegistry

-- The loop goes on, has found nobody left, or has told those that were left.
pub data Drained : Type 0 where
  waiting all_finished : Drained
  forced : CancellationRegistry → Drained

unfoldable pub drain_with_grace : ℕ → List Reading → Drained
unfolding signal_all
drain_with_grace deadline [] = waiting
drain_with_grace deadline ((r, now, later) ∷ readings) =
    let rest = drain_with_grace deadline readings in
    if active r == 0
    then all_finished
    else if leb deadline now
    then forced (signal_all daemon_shutdown later)
    else rest

told : Option (Channel RunCommand) → Option (Channel RunCommand)
told none = none
told (some c) = some (send_one daemon_shutdown c)

entry-signal_all :
    (id : JobId) (r : CancellationRegistry)
    → entry id (signal_all daemon_shutdown r) ≡ told (entry id r)
unfolding entry signal_all told
entry-signal_all id [] = refl
entry-signal_all id ((key, c) ∷ r) = elim (Bool-cases (key == id)) [
  | inl hit ↦ rw hit refl
  | inr miss ↦ rw miss (entry-signal_all id r)
]

-- How the loop may end, given its readings.
abbrev pub IsEnd : ℕ → List Reading → Drained → Type 0
IsEnd deadline readings waiting = (x : Reading) → Memᴰ x readings → x.1 < deadline
IsEnd deadline readings all_finished = (x : Reading) × Memᴰ x readings × (active x.0 ≡ 0)
IsEnd deadline readings (forced after) =
    (x : Reading) × Memᴰ x readings
    × (deadline ≤ x.1)
    × ((id : JobId) (c : Channel RunCommand)
        → entry id x.2 ≡ some c
        → entry id after ≡ some (send_one daemon_shutdown c))

told-some :
    (id : JobId) (r : CancellationRegistry) (c : Channel RunCommand)
    → entry id r ≡ some c
    → entry id (signal_all daemon_shutdown r) ≡ some (send_one daemon_shutdown c)
unfolding told
told-some id r c e = entry-signal_all id r ∙ ap told e

IsEnd-later :
    (deadline : ℕ) (x : Reading) (readings : List Reading) (o : Drained)
    → x.1 < deadline
    → IsEnd deadline readings o
    → IsEnd deadline (x ∷ readings) o
IsEnd-later deadline x readings waiting early h = λ y m. elim (cases_cons m) [
  | inl e ↦ subst (λ z. z.1 < deadline) (sym e) early
  | inr later ↦ h y later
]
IsEnd-later deadline x readings all_finished early (y, m, e) = (y, tail m, e)
IsEnd-later deadline x readings (forced after) early (y, m, le, each) = (y, tail m, le, each)

-- The loop of a drain goes on only at readings before its deadline; it ends because nobody is
-- registered, or at the deadline or later, and then every worker still registered is sent the
-- shutdown.
pub drain_with_grace_lem :
    (deadline : ℕ) (readings : List Reading)
    → IsEnd deadline readings (drain_with_grace deadline readings)
unfolding drain_with_grace
drain_with_grace_lem deadline [] = λ x m. elim m [ ]
drain_with_grace_lem deadline ((r, now, late_r) ∷ readings) = elim (Bool-cases (active r == 0)) [
  | inl nobody ↦ rw nobody ((r, now, late_r), head refl, ground (arith, nobody))
  | inr somebody ↦ elim (Bool-cases (leb deadline now)) [
    | inl late ↦
        rw (somebody, late)
          ((r, now, late_r), head refl, ground (arith, late), λ id c e. told-some id late_r c e)
    | inr early ↦
        rw (somebody, early)
          (IsEnd-later deadline (r, now, late_r) readings _ (ground (arith, early))
            (drain_with_grace_lem deadline readings))
  ]
]
