-- ===== src/Examples/Nights.antt =====
-- The theorems on the nightly run and on the drain of a shutdown, tried on one night.
use paavo.Prelude.{◌≡◌, refl, false, none, some, List, [], ◌∷◌, ◌++◌, All}
use paavo.Db.Store.{JobRow}
use paavo.Db.Schedule.Kept.{row_of}
use paavo.Daemon.Registry.{register}
use paavo.Daemon.State.{Daemon}
use paavo.Daemon.Nightly.{NightlyConfig, CorpusEntry, Crate, skipped, crate_dir, run_nightly_corpus}
use paavo.Daemon.Nightly.Fires.{IsNightly, nightly_after, run_nightly_corpus_lem}
use paavo.Daemon.Drain.{Reading, IsEnd, drain_with_grace, drain_with_grace_lem}
use paavo.Examples.{queue_db, spec_of}

abbrev crate : Crate
crate = record { name = "spi"; job_id = 9; now_ms = 500; tar = some "ee" }

-- A listing with a file, and one that cannot be read.
abbrev corpus : List CorpusEntry
corpus =
    record {
      name = "embassy";
      kind = "nrf52";
      cargo_update = [];
      listing = some (skipped ∷ crate_dir crate ∷ []);
    }
    ∷ record { name = "gone"; kind = "nrf52"; cargo_update = []; listing = none }
    ∷ []

abbrev night : NightlyConfig
night = record {
  nightly_cron = "0 0 19 * * *";
  default_inactivity_s = 120;
  default_scheduled_hard_max_s = 14_400;
  daemon_ceiling_s = 28_800;
  corpus = corpus;
  upload_path = λ blake. blake;
}

abbrev daemon : Daemon
daemon = record {
  db = queue_db;
  inventory = spec_of "desk" ∷ [];
  draining = false;
  free_slots = [];
  builds = [];
  runs = [];
  cancellation = [];
  build_cancel = [];
}

run_nightly_corpus_lem_example :
    (rows : List JobRow) × ((run_nightly_corpus night 500 600 daemon).db.jobs
      ≡ daemon.db.jobs ++ rows)
    × All IsNightly rows
    × (row_of "nightly" (run_nightly_corpus night 500 600 daemon).db
        ≡ some (nightly_after night 500 600 (row_of "nightly" daemon.db) rows))
run_nightly_corpus_lem_example = run_nightly_corpus_lem night 500 600 daemon refl

-- Job 4 is still there at the deadline.
abbrev readings : List Reading
readings = (register 4 [], 0, register 4 []) ∷ (register 4 [], 100, register 5 (register 4 [])) ∷ []

drain_with_grace_lem_example : IsEnd 60 readings (drain_with_grace 60 readings)
drain_with_grace_lem_example = drain_with_grace_lem 60 readings
