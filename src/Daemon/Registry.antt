-- ===== src/Daemon/Registry.antt =====
-- crates/paavod/src/cancellation.rs: the registries of cancel signals, keyed by job.
--
-- A channel is what was sent on it, and where its receiving half is. `HashMap` is an association
-- list in which a key stands once.
pub mod Signals
use paavo.Prelude.{
  ℕ, suc, ◌==◌, ◌≡◌, refl, Bool, true, false, String, Option, none, some, List, [], ◌∷◌, ◌++◌, map,
  length, if◌then◌else◌,
}
use paavo.Proto.Job.{JobId}

pub data RunCommand : Type 0 where
  cancel daemon_shutdown : RunCommand

-- The receiver is in the entry, with the worker, or dropped.
pub data Receiver : Type 0 where
  held taken dropped : Receiver

pub record Channel (M : Type 0) : Type 0 where
  pub sent : List M
  pub receiver : Receiver

abbrev pub Registry : Type 0 → Type 0
Registry M = List (JobId × Channel M)

abbrev pub is_dropped : Receiver → Bool
is_dropped held = false
is_dropped taken = false
is_dropped dropped = true

abbrev pub is_held : Receiver → Bool
is_held held = true
is_held taken = false
is_held dropped = false

module _ {M : Type 0} where
  unfoldable pub entry : JobId → Registry M → Option (Channel M)
  entry id [] = none
  entry id ((key, c) ∷ r) = if key == id then some c else entry id r

  -- Idempotent.
  unfoldable pub unregister : JobId → Registry M → Registry M
  unregister id [] = []
  unregister id ((key, c) ∷ r) = if key == id then unregister id r else (key, c) ∷ unregister id r

  -- `insert` of a fresh channel, over an old one if there is one.
  unfoldable pub register_as : Receiver → JobId → Registry M → Registry M
  unfolding unregister
  register_as receiver id r = (id, record { sent = []; receiver = receiver }) ∷ unregister id r

  abbrev pub send_one : M → Channel M → Channel M
  send_one m c = if is_dropped c.receiver then c else record c { sent = c.sent ++ m ∷ [] }

  unfoldable pub replace : JobId → (Channel M → Channel M) → Registry M → Registry M
  replace id f [] = []
  replace id f ((key, c) ∷ r) = (key, if key == id then f c else c) ∷ replace id f r

  -- `true` only if an entry existed and the send succeeded.
  unfoldable pub signal : JobId → M → Registry M → Registry M × Bool
  unfolding entry replace
  signal id m r = elim (entry id r) [
    | none ↦ (r, false)
    | some c ↦ if is_dropped c.receiver then (r, false) else (replace id (send_one m) r, true)
  ]

  unfoldable pub signal_all : M → Registry M → Registry M
  signal_all m [] = []
  signal_all m ((key, c) ∷ r) = (key, send_one m c) ∷ signal_all m r

  -- The receiver is handed out once; the sender Stays.
  unfoldable pub take_receiver : JobId → Registry M → Registry M × Bool
  unfolding entry replace
  take_receiver id r = elim (entry id r) [
    | none ↦ (r, false)
    | some c ↦
        if is_held c.receiver
        then (replace id (λ d. record d { receiver = taken }) r, true)
        else (r, false)
  ]

  abbrev pub active : Registry M → ℕ
  active = length

-- The registry of the run phase keeps the receiver; that of the build phase hands it to the build.
abbrev pub CancellationRegistry : Type 0
CancellationRegistry = Registry RunCommand

abbrev pub BuildCancelRegistry : Type 0
BuildCancelRegistry = Registry (Unit {0})

unfoldable pub register : JobId → CancellationRegistry → CancellationRegistry
unfolding register_as
register = register_as held

unfoldable pub register_build : JobId → BuildCancelRegistry → BuildCancelRegistry
unfolding register_as
register_build = register_as taken
