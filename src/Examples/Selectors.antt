-- ===== src/Examples/Selectors.antt =====
-- The theorems on probe selectors and on the pages of the viewer, tried on selectors as typed and on
-- the small laboratory.
use paavo.Prelude.{is_whitespace, parse_unsigned, arith}
use paavo.Prelude.{ℕ, ◌≡◌, refl, Option, none, some, List, ◌⊎◌, inl, inr, Text, codes, length}
use paavo.Proto.Board.{ProbeSelector}
use paavo.Proto.Job.{JobId}
use paavo.Proto.Selector.{ProbeSelectorParseError, bad_pid, parse, canonicalize, validate}
use paavo.Proto.Selector.Canonical.{
  IsFixed, IsCanonicalOf, IsFaultOf, parse-IsFixed, canonicalize_lem,
}
use paavo.Proto.Selector.Printed.{token, printed}
use paavo.Proto.Selector.Listed.{listed, parse-listed}
use paavo.Db.Job.Search.{JobListItem}
use paavo.Web.{ListQuery, list_jobs}
use paavo.Web.Windows.{IsWindow, same_list, list_jobs-IsWindow}
use paavo.Web.Poller.{Reading, new, zeros, subscribe, spawn_poller, PollerEvent, ticks, subscribes}
use paavo.Web.Poller.Changes.{
  Resource, entry, readings, changes, IsUpToDate, spawn_poller_lem, only_ticks,
}
use paavo.Prelude.{◌++◌}
use paavo.Prelude.{◌%◌, ◌^◌, ◌∷◌, []}
use paavo.Examples.{queue_db}

abbrev typed : Text
typed = codes "[0]: MCU-LINK -- 0x1FC9:143-2:AB:CD (CMSIS-DAP)"

abbrev read : ProbeSelector
read = record { vid = codes "1fc9"; pid = codes "0143"; serial = codes "AB:CD"; interface = some 2 }

parse-typed : parse typed ≡ inr read
unfolding parse
parse-typed = refl

parse-IsFixed_example : IsFixed read
parse-IsFixed_example = parse-IsFixed typed read parse-typed

parse-listed_example :
    (parse (token 8137 323 (codes "2") (codes "AB:CD")) ≡ inr (printed 8137 323 2 (codes "AB:CD")))
    × (parse (
          listed b'['
            (codes "0]: MCU-LINK")
            (token 8137 323 (codes "2") (codes "AB:CD"))
            (codes "CMSIS-DAP)"))
        ≡ inr (printed 8137 323 2 (codes "AB:CD")))
unfolding is_whitespace parse_unsigned
parse-listed_example =
    parse-listed 8137 323 2 (codes "2") (codes "AB:CD") b'[' (codes "0]: MCU-LINK")
      (codes "CMSIS-DAP)") (omega arith) (omega arith) refl (refl, tt)
      (refl, (refl, (refl, (refl, (refl, tt))))) refl
      (refl, (refl, (refl, (refl, (refl, (refl, (refl, (refl, (refl, (refl, tt))))))))))

abbrev misspelt : ProbeSelector
misspelt = record (read) { vid = codes " 1FC9"; pid = codes "01g3" }

canonicalize-misspelt : canonicalize misspelt ≡ inl (bad_pid (codes "01g3"))
unfolding canonicalize
canonicalize-misspelt = refl

canonicalize_lem_example :
    ((t : ProbeSelector) × (canonicalize misspelt ≡ inr t)
      × (validate misspelt ≡ inr tt)
      × IsCanonicalOf misspelt t)
    ⊎ ((e : ProbeSelectorParseError) × (canonicalize misspelt ≡ inl e)
        × (validate misspelt ≡ inl e)
        × IsFaultOf misspelt e)
canonicalize_lem_example = canonicalize_lem misspelt

abbrev id_text : JobId → Text
id_text id = codes "01J"

abbrev as_typed : Text → Text
as_typed s = s

abbrev by_length : Text → Text → Option ℕ
by_length hay query = some (length query)

abbrev second_page : ListQuery
second_page = record {
  page_text = some (codes "2");
  per_page_text = some (codes "2");
  q = some (codes " 1j ");
  as_of = none;
}

list_jobs-IsWindow_example :
    (hits : List JobListItem) × ((page_text per_page_text : Option Text) (revision : ℕ)
      → IsWindow hits (
          list_jobs id_text as_typed by_length
            (same_list second_page page_text per_page_text)
            revision
            queue_db))
list_jobs-IsWindow_example = list_jobs-IsWindow id_text as_typed by_length queue_db second_page

-- The jobs change before a client connects and once more after that; the boards change once, and one
-- query of the boards fails.
abbrev unseen : List PollerEvent
unseen = ticks (record { digest = some 11; boards = none; schedules = some 0 }) ∷ []

abbrev seen : List PollerEvent
seen =
    ticks (record { digest = some 12; boards = some 5; schedules = some 0 })
    ∷ subscribes
    ∷ ticks (record { digest = some 12; boards = none; schedules = some 0 })
    ∷ []

spawn_poller_lem_example :
    let prior = spawn_poller unseen new in
    let now = spawn_poller (unseen ++ subscribes ∷ seen) new in
    IsUpToDate prior now
    × ((k : Resource)
        → entry k now.rev ≡ changes 0 (readings k (unseen ++ subscribes ∷ seen)) % 2 ^ 64)
    × ((rs : List Reading) → (subscribe (spawn_poller (only_ticks rs) new)).1 ≡ zeros)
spawn_poller_lem_example = spawn_poller_lem unseen seen (tt, (tt, (tt, tt)))
