-- ===== src/Web/Poller/Changes.antt =====
-- What the revisions of the viewer count, and which of them clients hear of:
-- crates/paavo-web/src/index.rs and api/events.rs.
use mathlib.Core.Path.{ap₂}
use paavo.Prelude.{
  ℕ, ◌+◌, ◌%◌, ◌^◌, ◌<◌, ltb, ◌==◌, ◌≡◌, refl, sym, ap, subst, ◌∙◌, inl, inr, ◌⊎◌, Bool, true,
  false, ◌||◌, Option, none, some, List, [], ◌∷◌, ◌++◌, map, arith, if◌then◌else◌, Bool-cases, All,
}
use paavo.Web.Poller.{
  Revisions, LiveState, Reading, new, zeros, differs, fingerprint, bump, announce, send, bumped,
  fingerprints, tick, PollerEvent, subscribes, disconnects, ticks, subscribe, happen, spawn_poller,
}

-- How often a series of readings differs from the one before it; a failed reading does not count.
abbrev pub changes : ℕ → List (Option ℕ) → ℕ
changes old [] = 0
changes old (none ∷ rs) = changes old rs
changes old (some f ∷ rs) =
    let later = changes f rs in if f == old then changes old rs else 1 + later

send-rev : (live : LiveState) → (send live).rev ≡ live.rev
send-rev live = elim (Bool-cases (ltb 0 live.receivers)) [
  | inl heard ↦ rw heard refl
  | inr lost ↦ rw lost refl
]

send-fp : (live : LiveState) → (send live).fp ≡ live.fp
send-fp live = elim (Bool-cases (ltb 0 live.receivers)) [
  | inl heard ↦ rw heard refl
  | inr lost ↦ rw lost refl
]

announce-rev : (b : Bool) (live : LiveState) → (announce b live).rev ≡ live.rev
announce-rev true live = send-rev live
announce-rev false live = refl

announce-fp : (b : Bool) (live : LiveState) → (announce b live).fp ≡ live.fp
announce-fp true live = send-fp live
announce-fp false live = refl

-- The three kinds of rows that the poller looks at.
pub data Resource : Type 0 where
  jobs boards schedules : Resource

abbrev pub entry : Resource → Revisions → ℕ
entry jobs v = v.jobs
entry boards v = v.boards
entry schedules v = v.schedules

abbrev pub reading : Resource → Reading → Option ℕ
reading jobs r = r.digest
reading boards r = r.boards
reading schedules r = r.schedules

-- What the ticks among the events have read.
abbrev pub readings : Resource → List PollerEvent → List (Option ℕ)
readings k [] = []
readings k (ticks r ∷ es) = reading k r ∷ readings k es
readings k (subscribes ∷ es) = readings k es
readings k (disconnects ∷ es) = readings k es

abbrev moved : Reading → LiveState → Bool
moved r live =
    differs r.digest live.fp.jobs
    || differs r.boards live.fp.boards
    || differs r.schedules live.fp.schedules

abbrev pending : Reading → LiveState → LiveState
pending r live = record live {
  rev =
      bumped (differs r.digest live.fp.jobs) (differs r.boards live.fp.boards)
        (differs r.schedules live.fp.schedules) live.rev;
  fp = fingerprints r live.fp;
}

tick-rev :
    (k : Resource) (r : Reading) (live : LiveState)
    → entry k (tick r live).rev ≡ bump (differs (reading k r) (entry k live.fp)) (entry k live.rev)
unfolding tick
tick-rev k r live = ap (entry k) (announce-rev (moved r live) (pending r live)) ∙ same k
  where
    same :
        (k : Resource)
        → entry k (pending r live).rev
          ≡ bump (differs (reading k r) (entry k live.fp)) (entry k live.rev)
    same jobs = refl
    same boards = refl
    same schedules = refl

tick-fp :
    (k : Resource) (r : Reading) (live : LiveState)
    → entry k (tick r live).fp ≡ fingerprint (reading k r) (entry k live.fp)
unfolding tick
tick-fp k r live = ap (entry k) (announce-fp (moved r live) (pending r live)) ∙ same k
  where
    same :
        (k : Resource) → entry k (pending r live).fp ≡ fingerprint (reading k r) (entry k live.fp)
    same jobs = refl
    same boards = refl
    same schedules = refl

changes-cons :
    (r : Option ℕ) (rs : List (Option ℕ)) (old n : ℕ)
    → (bump (differs r old) n + changes (fingerprint r old) rs) % 2 ^ 64
      ≡ (n + changes old (r ∷ rs)) % 2 ^ 64
changes-cons none rs old n = refl
changes-cons (some f) rs old n = elim (Bool-cases (f == old)) [
  | inl same ↦
      let equal : f ≡ old = ground arith in rw same (ap (λ f. (n + changes f rs) % 2 ^ 64) equal)
  | inr other ↦ rw other (wrapped n (changes f rs))
]
  where
    wrapped : (n c : ℕ) → ((n + 1) % 2 ^ 64 + c) % 2 ^ 64 ≡ (n + (1 + c)) % 2 ^ 64
    wrapped n c = omega arith

bump-lt : (b : Bool) (n : ℕ) → n < 2 ^ 64 → bump b n < 2 ^ 64
bump-lt true n h = omega arith
bump-lt false n h = h

spawn_poller-rev :
    (k : Resource) (es : List PollerEvent) (live : LiveState)
    → entry k live.rev < 2 ^ 64
    → entry k (spawn_poller es live).rev
      ≡ (entry k live.rev + changes (entry k live.fp) (readings k es)) % 2 ^ 64
unfolding spawn_poller happen subscribe
spawn_poller-rev k [] live h = omega (arith, h)
spawn_poller-rev k (subscribes ∷ es) live h = spawn_poller-rev k es _ h
spawn_poller-rev k (disconnects ∷ es) live h = spawn_poller-rev k es _ h
spawn_poller-rev k (ticks r ∷ es) live h =
    let small : entry k (tick r live).rev < 2 ^ 64 =
      subst (λ n. n < 2 ^ 64) (sym (tick-rev k r live)) (bump-lt _ (entry k live.rev) h) in
    spawn_poller-rev k es (tick r live) small
    ∙ (ap₂ (λ n old. (n + changes old (readings k es)) % 2 ^ 64) (tick-rev k r live)
          (tick-fp k r live)
        ∙ changes-cons (reading k r) (readings k es) (entry k live.fp) (entry k live.rev))

-- A client that has connected to `prior` has been told the present revisions, or none has moved.
abbrev pub IsUpToDate : LiveState → LiveState → Type 0
IsUpToDate prior live = (live.tx ≡ live.rev) ⊎ ((live.tx ≡ prior.tx) × (live.rev ≡ prior.rev))

abbrev pub Stays : PollerEvent → Type 0
Stays disconnects = ⊥
Stays _ = Unit

abbrev IsWatched : LiveState → LiveState → Type 0
IsWatched prior live = (0 < live.receivers) × IsUpToDate prior live

send-IsWatched : (prior live : LiveState) → 0 < live.receivers → IsWatched prior (send live)
send-IsWatched prior live some_there =
    let heard : ltb 0 live.receivers ≡ true = ground (arith, some_there) in
    rw heard (some_there, inl refl)

announce-IsWatched :
    (a b c : Bool) (prior live : LiveState) (fp : Revisions)
    → IsWatched prior live
    → IsWatched prior
        (announce (a || b || c) (record live { rev = bumped a b c live.rev; fp = fp }))
announce-IsWatched true b c prior live fp h = send-IsWatched prior _ h.0
announce-IsWatched false true c prior live fp h = send-IsWatched prior _ h.0
announce-IsWatched false false true prior live fp h = send-IsWatched prior _ h.0
announce-IsWatched false false false prior live fp h = h

tick-IsWatched :
    (r : Reading) (prior live : LiveState) → IsWatched prior live → IsWatched prior (tick r live)
unfolding tick
tick-IsWatched r prior live h =
    announce-IsWatched (differs r.digest live.fp.jobs) (differs r.boards live.fp.boards)
      (differs r.schedules live.fp.schedules) prior live (fingerprints r live.fp) h

spawn_poller-IsWatched :
    (es : List PollerEvent) (prior live : LiveState)
    → All Stays es
    → IsWatched prior live
    → IsWatched prior (spawn_poller es live)
unfolding spawn_poller happen subscribe
spawn_poller-IsWatched [] prior live s h = h
spawn_poller-IsWatched (subscribes ∷ es) prior live s h =
    spawn_poller-IsWatched es prior _ s.1 (omega arith, h.1)
spawn_poller-IsWatched (disconnects ∷ es) prior live s h = absurd s.0
spawn_poller-IsWatched (ticks r ∷ es) prior live s h =
    spawn_poller-IsWatched es prior (tick r live) s.1 (tick-IsWatched r prior live h)

tick-quiet :
    (r : Reading) (live : LiveState)
    → live.receivers ≡ 0
    → ((tick r live).tx ≡ live.tx) × ((tick r live).receivers ≡ 0)
unfolding tick
tick-quiet r live alone = quiet (moved r live)
  where
    quiet :
        (b : Bool)
        → ((announce b (pending r live)).tx ≡ live.tx)
          × ((announce b (pending r live)).receivers ≡ 0)
    quiet false = (refl, alone)
    quiet true =
        let nobody : ltb 0 live.receivers ≡ false = ground (arith, alone) in rw nobody (refl, alone)

-- The poller by itself.
abbrev pub only_ticks : List Reading → List PollerEvent
only_ticks rs = map ticks rs

ticks-quiet :
    (rs : List Reading) (live : LiveState)
    → live.receivers ≡ 0
    → (spawn_poller (only_ticks rs) live).tx ≡ live.tx
unfolding spawn_poller happen
ticks-quiet [] live alone = refl
ticks-quiet (r ∷ rs) live alone =
    let (kept, still) = tick-quiet r live alone in ticks-quiet rs (tick r live) still ∙ kept

subscribe-stale : (rs : List Reading) → (subscribe (spawn_poller (only_ticks rs) new)).1 ≡ zeros
unfolding subscribe new
subscribe-stale rs = ticks-quiet rs new refl

entry-zeros : (k : Resource) → entry k zeros ≡ 0
entry-zeros jobs = refl
entry-zeros boards = refl
entry-zeros schedules = refl

spawn_poller-append :
    (es fs : List PollerEvent) (live : LiveState)
    → spawn_poller (es ++ fs) live ≡ spawn_poller fs (spawn_poller es live)
unfolding spawn_poller
spawn_poller-append [] fs live = refl
spawn_poller-append (e ∷ es) fs live = spawn_poller-append es fs (happen e live)

counted :
    (k : Resource) (es : List PollerEvent)
    → entry k (spawn_poller es new).rev ≡ changes 0 (readings k es) % 2 ^ 64
unfolding new
counted k es =
    spawn_poller-rev k es new (subst (λ n. n < 2 ^ 64) (sym (entry-zeros k)) (omega arith))
    ∙ (ap (λ n. (n + changes n (readings k es)) % 2 ^ 64) (entry-zeros k)
        ∙ no_more (changes 0 (readings k es)))
  where
    no_more : (n : ℕ) → (0 + n) % 2 ^ 64 ≡ n % 2 ^ 64
    no_more n = omega arith

-- After any series of ticks, and of clients that come and go, the revision of each resource is the
-- number of times, modulo 2^64, that its fingerprint was read and differed from the one before. From
-- a connection on after which no client leaves, the channel holds the present revisions, or neither
-- has moved. The snapshot of a first client is all zeros, whatever the ticks before it have read.
pub spawn_poller_lem :
    (before after : List PollerEvent)
    → All Stays after
    → let prior = spawn_poller before new in
      let now = spawn_poller (before ++ subscribes ∷ after) new in
      IsUpToDate prior now
      × ((k : Resource)
          → entry k now.rev ≡ changes 0 (readings k (before ++ subscribes ∷ after)) % 2 ^ 64)
      × ((rs : List Reading) → (subscribe (spawn_poller (only_ticks rs) new)).1 ≡ zeros)
unfolding spawn_poller happen subscribe
spawn_poller_lem before after watched = (
  subst (IsUpToDate (spawn_poller before new))
      (sym (spawn_poller-append before (subscribes ∷ after) new))
      (connected (spawn_poller before new)),
  λ k. counted k (before ++ subscribes ∷ after),
  subscribe-stale,
)
  where
    connected : (prior : LiveState) → IsUpToDate prior (spawn_poller (subscribes ∷ after) prior)
    connected prior =
        (spawn_poller-IsWatched after prior (subscribe prior).0 watched
          (omega arith, inr (refl, refl))).1
