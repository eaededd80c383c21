-- ===== src/Web/Poller.antt =====
-- crates/paavo-web/src/index.rs: the revisions that the viewer shows, and the poller that bumps them.
-- The hashes of what a tick reads are inputs.
pub mod Changes
use paavo.Prelude.{
  ℕ, suc, ◌+◌, ◌-◌, ◌%◌, ◌^◌, ltb, ◌==◌, Bool, true, false, ◌||◌, Option, none, some, List, [], ◌∷◌,
  if◌then◌else◌,
}

pub record Revisions : Type 0 where
  pub jobs : ℕ
  pub boards : ℕ
  pub schedules : ℕ

-- A watch channel holds the value that was sent last, and knows how many receivers there are.
pub record LiveState : Type 0 where
  pub rev : Revisions
  pub tx : Revisions
  pub receivers : ℕ
  pub fp : Revisions

abbrev pub zeros : Revisions
zeros = record { jobs = 0; boards = 0; schedules = 0 }

-- The receiver that `watch::channel` returns is dropped.
unfoldable pub new : LiveState
new = record { rev = zeros; tx = zeros; receivers = 0; fp = zeros }

-- The fingerprints that a tick reads, where a failed query gives none.
pub record Reading : Type 0 where
  pub digest : Option ℕ
  pub boards : Option ℕ
  pub schedules : Option ℕ

abbrev pub differs : Option ℕ → ℕ → Bool
differs none old = false
differs (some f) old = if f == old then false else true

abbrev pub fingerprint : Option ℕ → ℕ → ℕ
fingerprint none old = old
fingerprint (some f) old = f

-- `u64` wraps around in a release build.
abbrev pub bump : Bool → ℕ → ℕ
bump true n = (n + 1) % 2 ^ 64
bump false n = n

-- `watch::Sender::send` fails when there is no receiver, and then leaves the value as it was.
abbrev pub send : LiveState → LiveState
send live = if ltb 0 live.receivers then record live { tx = live.rev } else live

abbrev pub announce : Bool → LiveState → LiveState
announce true live = send live
announce false live = live

abbrev pub bumped : Bool → Bool → Bool → Revisions → Revisions
bumped jobs boards schedules rev = record {
  jobs = bump jobs rev.jobs;
  boards = bump boards rev.boards;
  schedules = bump schedules rev.schedules;
}

abbrev pub fingerprints : Reading → Revisions → Revisions
fingerprints r fp = record {
  jobs = fingerprint r.digest fp.jobs;
  boards = fingerprint r.boards fp.boards;
  schedules = fingerprint r.schedules fp.schedules;
}

-- One turn of the loop in `spawn_poller`.
unfoldable pub tick : Reading → LiveState → LiveState
tick r live =
    let jobs = differs r.digest live.fp.jobs in
    let boards = differs r.boards live.fp.boards in
    let schedules = differs r.schedules live.fp.schedules in
    announce (jobs || boards || schedules)
      (record live { rev = bumped jobs boards schedules live.rev; fp = fingerprints r live.fp })

-- A client connects, or goes away; or the poller has its turn.
pub data PollerEvent : Type 0 where
  subscribes disconnects : PollerEvent
  ticks : Reading → PollerEvent

-- The client's snapshot is what the channel holds.
unfoldable pub subscribe : LiveState → LiveState × Revisions
subscribe live = (record live { receivers = suc live.receivers }, live.tx)

unfoldable pub happen : PollerEvent → LiveState → LiveState
unfolding tick subscribe
happen subscribes live = (subscribe live).0
happen disconnects live = record live { receivers = live.receivers - 1 }
happen (ticks r) live = tick r live

-- The poller and its clients through a number of events.
unfoldable pub spawn_poller : List PollerEvent → LiveState → LiveState
unfolding happen
spawn_poller [] live = live
spawn_poller (e ∷ es) live = spawn_poller es (happen e live)
