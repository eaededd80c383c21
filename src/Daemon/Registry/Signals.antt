-- ===== src/Daemon/Registry/Signals.antt =====
-- Who hears a signal: crates/paavod/src/cancellation.rs.
use paavo.Prelude.{
  ◌==◌, ◌≡◌, refl, sym, ap, ◌∙◌, true, false, none, some, List, [], ◌∷◌, ◌++◌, arith, Bool-cases,
  inl, inr, if◌then◌else◌,
}
use mathlib.Core.List.{append_assoc, append-nil}
use paavo.Proto.Job.{JobId}
use paavo.Daemon.Registry.{
  Receiver, held, taken, is_dropped, is_held, Channel, Registry, entry, unregister, register_as,
  send_one, replace, signal, take_receiver, register, CancellationRegistry, RunCommand,
}

module _ {M : Type 0} where
  entry-replace :
      (id : JobId) (f : Channel M → Channel M) (r : Registry M) {c : Channel M}
      → entry id r ≡ some c
      → entry id (replace id f r) ≡ some (f c)
  unfolding entry replace
  entry-replace id f [] h = cc
  entry-replace id f ((key, d) ∷ r) {c} h = elim (Bool-cases (key == id)) [
    | inl hit ↦ let e : d ≡ c = ground arith in rw hit (ap (λ x. some (f x)) e)
    | inr miss ↦ rw miss (entry-replace id f r {c = c} (ground arith))
  ]

  entry-unregister : (id : JobId) (r : Registry M) → entry id (unregister id r) ≡ none
  unfolding entry unregister
  entry-unregister id [] = refl
  entry-unregister id ((key, d) ∷ r) = elim (Bool-cases (key == id)) [
    | inl hit ↦ rw hit (entry-unregister id r)
    | inr miss ↦ rw (miss, entry, miss) (entry-unregister id r)
  ]

  signal-live :
      (id : JobId) (m : M) (r : Registry M) {c : Channel M}
      → entry id r ≡ some c
      → is_dropped c.receiver ≡ false
      → ((signal id m r).1 ≡ true)
        × (entry id (signal id m r).0 ≡ some (record c { sent = c.sent ++ m ∷ [] }))
  unfolding signal
  signal-live id m r {c} found live =
      let sent = entry-replace id (send_one m) r found in
      rw (found, signal, live) (refl, sent ∙ ap some (rw live refl))

  -- The signals for one job, one after another, with the last answer of each.
  abbrev pub signal_each : JobId → List M → Registry M → Registry M
  signal_each id [] r = r
  signal_each id (m ∷ ms) r = signal_each id ms (signal id m r).0

  signal_each-live :
      (id : JobId) (ms : List M) (r : Registry M) {c : Channel M}
      → entry id r ≡ some c
      → is_dropped c.receiver ≡ false
      → entry id (signal_each id ms r) ≡ some (record c { sent = c.sent ++ ms })
  signal_each-live id [] r {c} found live =
      found ∙ ap (λ s. some (record c { sent = s })) (sym (append-nil c.sent))
  signal_each-live id (m ∷ ms) r {c} found live =
      signal_each-live id ms (signal id m r).0 (signal-live id m r found live).1 live
      ∙ ap (λ s. some (record c { sent = s })) (append_assoc c.sent (m ∷ []) ms)

  -- After a job is taken off a registry no signal is delivered, and the sender hears so.
  signal-unregister :
      (id : JobId) (m : M) (r : Registry M)
      → signal id m (unregister id r) ≡ (unregister id r, false)
  unfolding signal
  signal-unregister id m r = rw (entry-unregister id r, signal) refl

  entry-register_as :
      (receiver : Receiver) (id : JobId) (r : Registry M)
      → entry id (register_as receiver id r) ≡ some (record { sent = []; receiver = receiver })
  unfolding entry register_as
  entry-register_as receiver id r = ground arith

  take_receiver-live :
      (id : JobId) (r : Registry M) {c : Channel M}
      → entry id r ≡ some c
      → ((take_receiver id r).1 ≡ is_held c.receiver)
        × (entry id (take_receiver id r).0
            ≡ some (if is_held c.receiver then record c { receiver = taken } else c))
  unfolding take_receiver
  take_receiver-live id r {c} found = elim (Bool-cases (is_held c.receiver)) [
    | inl here ↦
        rw (found, take_receiver, here)
          (refl, entry-replace id (λ d. record d { receiver = taken }) r found)
    | inr gone ↦ rw (found, take_receiver, gone) (refl, found)
  ]

-- The worker of a registered job can take its receiver once, and finds there, in order, all that is
-- sent before and after.
pub signals-reach_worker :
    (id : JobId) (before after : List RunCommand) (r : CancellationRegistry)
    → let told = signal_each id before (register id r) in
      ((take_receiver id told).1 ≡ true)
      × ((take_receiver id (take_receiver id told).0).1 ≡ false)
      × (entry id (signal_each id after (take_receiver id told).0)
          ≡ some (record { sent = before ++ after; receiver = taken }))
unfolding register
signals-reach_worker id before after r =
    let told = signal_each id before (register_as held id r) in
    let first : entry id told ≡ some (record { sent = before; receiver = held }) =
      signal_each-live id before (register_as held id r) (entry-register_as held id r) refl in
    let (got, second) = take_receiver-live id told first in
    (
      got,
      (take_receiver-live id (take_receiver id told).0 second).0,
      signal_each-live id after (take_receiver id told).0 second refl,
    )
