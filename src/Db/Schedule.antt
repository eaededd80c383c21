-- ===== src/Db/Schedule.antt =====
-- crates/paavo-db/src/schedule.rs: the `schedule` table.
pub mod Kept
use paavo.Prelude.{
  ℕ, ltb, ◌≡◌, str_eq, str_leb, Bool, true, false, String, Option, none, some, List, [], ◌∷◌, ◌++◌,
  take, drop, if◌then◌else◌, count_where, update_where, find_where, length,
}
use paavo.Prelude.Sort.{sort_by}
use paavo.Db.Store.{Database, ScheduleRow, Action, Result, ok, err, not_found, schedule, ◌>>◌, done}

pub record ScheduleUpdate : Type 0 where
  pub last_triggered_at : Option ℕ
  pub last_completed_at : Option ℕ

abbrev pub has_schedule_id : String → ScheduleRow → Bool
has_schedule_id id row = str_eq row.id id

-- `COALESCE(new, old)`
abbrev pub coalesce : Option ℕ → Option ℕ → Option ℕ
coalesce none old = old
coalesce (some t) old = some t

-- `ON CONFLICT(id) DO UPDATE`
abbrev pub refreshed : ScheduleRow → ScheduleRow → ScheduleRow
refreshed s old = record old {
  cron = s.cron;
  enabled = s.enabled;
  last_triggered_at = coalesce s.last_triggered_at old.last_triggered_at;
  last_completed_at = coalesce s.last_completed_at old.last_completed_at;
}

unfoldable pub upsert : ScheduleRow → Action (Unit {0})
upsert s db =
    if ltb 0 (count_where (has_schedule_id s.id) db.schedules)
    then (
      record db { schedules = update_where (has_schedule_id s.id) (refreshed s) db.schedules },
      ok tt,
    )
    else (record db { schedules = db.schedules ++ s ∷ [] }, ok tt)

unfoldable pub get : String → Database → Result ScheduleRow
get id db = elim (find_where (has_schedule_id id) db.schedules) [
  | none ↦ err (not_found (schedule id))
  | some row ↦ ok row
]

abbrev pub id_leb : ScheduleRow → ScheduleRow → Bool
id_leb a b = str_leb a.id b.id

unfoldable pub list_all : Database → List ScheduleRow
list_all db = sort_by id_leb db.schedules

unfoldable pub list_page : ℕ → ℕ → Database → List ScheduleRow
list_page offset limit db = take limit (drop offset (sort_by id_leb db.schedules))

unfoldable pub count : Database → ℕ
count db = length db.schedules

abbrev pub set_triggered : String → Option ℕ → Action (Unit {0})
set_triggered id none db = (db, ok tt)
set_triggered id (some t) db = (
  record db {
    schedules =
        update_where (has_schedule_id id) (λ row. record row { last_triggered_at = some t })
          db.schedules;
  },
  ok tt,
)

abbrev pub set_completed : String → Option ℕ → Action (Unit {0})
set_completed id none db = (db, ok tt)
set_completed id (some t) db = (
  record db {
    schedules =
        update_where (has_schedule_id id) (λ row. record row { last_completed_at = some t })
          db.schedules;
  },
  ok tt,
)

unfoldable pub apply_update : String → ScheduleUpdate → Action (Unit {0})
apply_update id u = set_triggered id u.last_triggered_at >> set_completed id u.last_completed_at
