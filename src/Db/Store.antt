-- ===== src/Db/Store.antt =====
-- The SQLite store of crates/paavo-db (migrations/*.sql, src/error.rs) and its effects.
--
-- A table is the list of its rows in insertion order. A row is held decoded: a column that stores an
-- enum as text or a structure as JSON holds the value itself. Integer columns hold the number that
-- Rust hands over; a `u64` that does not fit the column's signed 64 bits is negative when read back,
-- which `from_row` refuses.
use paavo.Prelude.{
  ◌⊎◌, inl, inr, ℕ, Bool, String, Option, none, some, List, [], ◌∷◌, ◌≡◌, refl, ltb,
}
use paavo.Proto.Job.{JobId, Priority, JobSource, JobState, JobOutcome}
use paavo.Proto.Board.{BoardSpec, BoardSelector}
use paavo.Proto.Log.{LogFrame}

-- The entity and id of an error.
pub data Entity : Type 0 where
  board : String → Entity
  job : JobId → Entity
  schedule : String → Entity

-- The constraints of the schema that a statement can violate.
pub data SqliteFailure : Type 0 where
  -- The last two are a value that is not read as an integer, and a sum beyond 64 bits.
  primary_key foreign_key column_type integer_overflow : SqliteFailure

-- The text of a conflict: `board must be quarantined first; …`, `referenced by {count} job row(s); …`.
pub data ConflictReason : Type 0 where
  quarantined_first : ConflictReason
  referenced_by : ℕ → ConflictReason

-- Failures of JSON and of migrations come from libraries, and no statement here meets them.
pub data DbError : Type 0 where
  sqlite : SqliteFailure → DbError
  unknown_enum : String → String → DbError
  not_found : Entity → DbError
  already_exists : Entity → DbError
  conflict : Entity → ConflictReason → DbError

pub data Result {ℓ} (A : Type ℓ) : Type ℓ where
  ok : A → Result A
  err : DbError → Result A
  panicked : String → Result A

pub record BoardRow : Type 0 where
  pub spec : BoardSpec
  pub quarantine_reason : Option String
  pub consecutive_infra_failures : ℕ
  pub last_used_at : Option ℕ
  pub created_at : ℕ

pub record JobRow : Type 0 where
  pub id : JobId
  pub priority : Priority
  pub submitter : String
  pub source : JobSource
  pub board_selector : BoardSelector
  pub inactivity_timeout_ms : ℕ
  pub hard_max_ms : ℕ
  pub state : JobState
  pub outcome : Option JobOutcome
  pub board_id : Option String
  pub submitted_at : ℕ
  pub started_at : Option ℕ
  pub finished_at : Option ℕ
  pub tar_blake3 : String
  pub tar_path : String
  pub elf_path : Option String
  pub cargo_update_packages : List String
  pub skip_cache : Bool

pub record FrameRow : Type 0 where
  pub job_id : JobId
  pub frame : LogFrame

pub record BuildCacheEntry : Type 0 where
  pub tar_blake3 : String
  pub elf_path : String
  pub built_at : ℕ
  pub last_used_at : ℕ
  pub size_bytes : ℕ

pub record ScheduleRow : Type 0 where
  pub id : String
  pub cron : String
  pub enabled : Bool
  pub last_triggered_at : Option ℕ
  pub last_completed_at : Option ℕ

pub record Database : Type 0 where
  pub boards : List BoardRow
  pub jobs : List JobRow
  pub frames : List FrameRow
  pub cache : List BuildCacheEntry
  pub schedules : List ScheduleRow

abbrev pub empty : Database
empty = record { boards = []; jobs = []; frames = []; cache = []; schedules = [] }

-- A statement may fail after earlier ones of the same function have changed the store, so the
-- store survives an error.
abbrev pub Action {ℓ} : Type ℓ → Type ℓ
Action A = Database → Database × Result A

abbrev pub ok_or {ℓ} : {A : Type ℓ} → Option A → DbError → Result A
ok_or none e = err e
ok_or (some a) e = ok a

abbrev pub bind_result {ℓ κ} :
    {A : Type ℓ} {B : Type κ} → Database → Result A → (A → Action B) → Database × Result B
bind_result db (ok a) f = f a db
bind_result db (err e) f = (db, err e)
bind_result db (panicked why) f = (db, panicked why)

infixl 5 ◌>>=◌ ◌>>◌
abbrev pub ◌>>=◌ {ℓ κ} : {A : Type ℓ} {B : Type κ} → Action A → (A → Action B) → Action B
◌>>=◌ m f db = bind_result (m db).0 (m db).1 f

abbrev pub ◌>>◌ {ℓ} : {B : Type ℓ} → Action (Unit {0}) → Action B → Action B
◌>>◌ m k db = bind_result (m db).0 (m db).1 (λ _. k)

abbrev pub done {ℓ} : {A : Type ℓ} → A → Action A
done a db = (db, ok a)

abbrev pub raise {ℓ} : {A : Type ℓ} → DbError → Action A
raise e db = (db, err e)

-- A query reads the store and leaves it.
abbrev pub query {ℓ} : {A : Type ℓ} → (Database → Result A) → Action A
query q db = (db, q db)

abbrev pub cons_result {ℓ} : {A : Type ℓ} → Result A → Result (List A) → Result (List A)
cons_result (ok a) (ok as') = ok (a ∷ as')
cons_result (ok a) (err e) = err e
cons_result (ok a) (panicked why) = panicked why
cons_result (err e) _ = err e
cons_result (panicked why) _ = panicked why

-- `.collect::<Result<Vec<_>>>()`: the first row that cannot be decoded fails the whole.
unfoldable pub decode_all {ℓ κ} :
    {A : Type ℓ} {B : Type κ} → (A → Result B) → List A → Result (List B)
decode_all f [] = ok []
decode_all f (x ∷ xs) = let rest = decode_all f xs in cons_result (f x) rest

-- The columns are signed 64-bit integers, and a counter is read as `u32`.
abbrev pub fits_i64 : ℕ → Bool
fits_i64 n = ltb n 0x8000_0000_0000_0000

abbrev pub fits_u32 : ℕ → Bool
fits_u32 n = ltb n 0x1_0000_0000

pub Result-cases {ℓ} :
    {A : Type ℓ} (r : Result A)
    → ((a : A) × (r ≡ ok a))
      ⊎ (((e : DbError) × (r ≡ err e)) ⊎ ((why : String) × (r ≡ panicked why)))
Result-cases (ok a) = inl (a, refl)
Result-cases (err e) = inr (inl (e, refl))
Result-cases (panicked why) = inr (inr (why, refl))
