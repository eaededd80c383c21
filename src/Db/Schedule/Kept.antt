-- ===== src/Db/Schedule/Kept.antt =====
-- What the writes to a schedule leave: crates/paavo-db/src/schedule.rs.
use paavo.Prelude.{
  ℕ, ltb, ◌≡◌, refl, true, str_eq_self, String, Option, none, some, arith, find_where, count_where,
  find_where_skip, find_where-update, find_where-none, count_where-of_find,
}
use paavo.Db.Store.{Database, ScheduleRow, ok}
use paavo.Db.Schedule.{
  ScheduleUpdate, has_schedule_id, coalesce, refreshed, upsert, set_triggered, set_completed,
  apply_update,
}

abbrev pub row_of : String → Database → Option ScheduleRow
row_of id db = find_where (has_schedule_id id) db.schedules

-- The row that an upsert leaves: the given one, with the times it leaves out from the old one.
abbrev pub upserted : ScheduleRow → Option ScheduleRow → ScheduleRow
upserted s none = s
upserted s (some old) = refreshed s old

pub upsert-row :
    (s : ScheduleRow) (db : Database)
    → row_of s.id (upsert s db).0 ≡ some (upserted s (row_of s.id db))
unfolding upsert
upsert-row s db = by_row (row_of s.id db) refl
  where
    by_row :
        (o : Option ScheduleRow)
        → row_of s.id db ≡ o
        → row_of s.id (upsert s db).0 ≡ some (upserted s o)
    by_row none e =
        let absent = find_where-none (has_schedule_id s.id) db.schedules e in
        rw absent (find_where_skip (has_schedule_id s.id) db.schedules s absent (str_eq_self s.id))
    by_row (some old) e =
        let there : ltb 0 (count_where (has_schedule_id s.id) db.schedules) ≡ true =
          ground (arith, count_where-of_find (has_schedule_id s.id) db.schedules e) in
        rw there (find_where-update (has_schedule_id s.id) (refreshed s) (λ x h. h) db.schedules e)

abbrev pub updated : ScheduleUpdate → ScheduleRow → ScheduleRow
updated u old = record old {
  last_triggered_at = coalesce u.last_triggered_at old.last_triggered_at;
  last_completed_at = coalesce u.last_completed_at old.last_completed_at;
}

set_triggered-row :
    (id : String) (o : Option ℕ) (db : Database) {old : ScheduleRow}
    → row_of id db ≡ some old
    → row_of id (set_triggered id o db).0
      ≡ some (record old { last_triggered_at = coalesce o old.last_triggered_at })
set_triggered-row id none db e = e
set_triggered-row id (some t) db e =
    find_where-update (has_schedule_id id) (λ row. record row { last_triggered_at = some t })
      (λ x h. h) db.schedules e

set_completed-row :
    (id : String) (o : Option ℕ) (db : Database) {old : ScheduleRow}
    → row_of id db ≡ some old
    → row_of id (set_completed id o db).0
      ≡ some (record old { last_completed_at = coalesce o old.last_completed_at })
set_completed-row id none db e = e
set_completed-row id (some t) db e =
    find_where-update (has_schedule_id id) (λ row. record row { last_completed_at = some t })
      (λ x h. h) db.schedules e

set_triggered-ok : (id : String) (o : Option ℕ) (db : Database) → (set_triggered id o db).1 ≡ ok tt
set_triggered-ok id none db = refl
set_triggered-ok id (some t) db = refl

pub apply_update-row :
    (id : String) (u : ScheduleUpdate) (db : Database) {old : ScheduleRow}
    → row_of id db ≡ some old
    → row_of id (apply_update id u db).0 ≡ some (updated u old)
unfolding apply_update
apply_update-row id u db e = rw (set_triggered-ok id u.last_triggered_at db) (
    set_completed-row id u.last_completed_at (set_triggered id u.last_triggered_at db).0
      (set_triggered-row id u.last_triggered_at db e))
