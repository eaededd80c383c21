-- ===== src/Core/Scheduler/Order.antt =====
-- The orders that the scheduler sorts by: the dispatch key of a job, the last use of a board.
use paavo.Prelude.{ℕ, ◌≤◌, ◌<◌, ◌≡◌, true, false, Option, none, some, ◌⊎◌, arith}
use paavo.Proto.Job.{weight}
use paavo.Db.Store.{BoardRow, JobRow}
use paavo.Db.Job.Queries.{dispatch_leb}
use paavo.Core.Scheduler.{lru_leb}

-- `a` is to be dispatched no later than `b`.
abbrev pub Precedes : JobRow → JobRow → Type 0
Precedes a b =
    (weight a.priority < weight b.priority)
    ⊎ ((weight a.priority ≡ weight b.priority) × (a.submitted_at ≤ b.submitted_at))

pub dispatch_leb→Precedes : (a b : JobRow) → dispatch_leb a b ≡ true → Precedes a b
dispatch_leb→Precedes a b h = ground arith

pub dispatch_leb→Precedes_back : (a b : JobRow) → dispatch_leb a b ≡ false → Precedes b a
dispatch_leb→Precedes_back a b h = ground arith

pub Precedes-trans : (a b c : JobRow) → Precedes a b → Precedes b c → Precedes a c
Precedes-trans a b c h k = ground arith

-- A board that was never used comes before all others.
abbrev pub NotUsedAfter : Option ℕ → Option ℕ → Type 0
NotUsedAfter none y = Unit
NotUsedAfter (some x) none = ⊥
NotUsedAfter (some x) (some y) = x ≤ y

abbrev pub UsedNoLater : BoardRow → BoardRow → Type 0
UsedNoLater a b = NotUsedAfter a.last_used_at b.last_used_at

pub lru_leb→UsedNoLater : (a b : BoardRow) → lru_leb a b ≡ true → UsedNoLater a b
lru_leb→UsedNoLater a b h = ground arith

pub lru_leb→UsedNoLater_back : (a b : BoardRow) → lru_leb a b ≡ false → UsedNoLater b a
lru_leb→UsedNoLater_back a b h = ground arith

pub UsedNoLater-trans : (a b c : BoardRow) → UsedNoLater a b → UsedNoLater b c → UsedNoLater a c
UsedNoLater-trans a b c h k = ground arith

pub UsedNoLater-refl : (a : BoardRow) → UsedNoLater a a
UsedNoLater-refl a = ground arith
