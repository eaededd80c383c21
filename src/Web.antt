-- ===== src/Web.antt =====
-- crates/paavo-web/src/api/*.rs: the lists that the viewer serves, with the envelope of
-- crates/paavo-proto/src/page.rs. A query string is the texts of its
-- parameters. Rows of boards and schedules stand for their views, which copy columns.
pub mod Windows
pub mod Poller
use paavo.Prelude.{
  ℕ, ◌+◌, ◌-◌, ◌*◌, ◌^◌, min, max, Bool, true, false, String, Option, none, some, List, [], ◌∷◌,
  map, if◌then◌else◌, Text, trim, parse_unsigned,
}
use paavo.Proto.Job.{JobId}
use paavo.Db.Store.{Database, BoardRow, ScheduleRow, Result, ok, err, panicked}
use paavo.Db.Job.Queries.{count, count_newer}
use paavo.Db.Job.Search.{JobListItem, search_index_page, search_count, list_index_page}
use paavo.Db.Board.Pages as Boards
use paavo.Db.Schedule as Schedules

pub record Page (A : Type 0) : Type 0 where
  pub items : List A
  pub total : ℕ
  pub page : ℕ
  pub per_page : ℕ
  pub revision : ℕ
  pub new_count : ℕ
  pub as_of : Option ℕ

abbrev pub max_u32 : ℕ
max_u32 = 2 ^ 32 - 1

abbrev pub parsed_or : ℕ → Option ℕ → ℕ
parsed_or default none = default
parsed_or default (some n) = n

abbrev pub parsed : Option Text → Option ℕ
parsed none = none
parsed (some v) = parse_unsigned max_u32 v

-- `.unwrap_or(1).max(1)`
unfoldable pub page_param : Option Text → ℕ
unfolding parse_unsigned
page_param v = max (parsed_or 1 (parsed v)) 1

-- `.unwrap_or(20).clamp(1, most)`
unfoldable pub per_page_param : ℕ → Option Text → ℕ
unfolding parse_unsigned
per_page_param most v = min (max (parsed_or 20 (parsed v)) 1) most

-- `(page - 1).saturating_mul(per_page)` on `u32`
unfoldable pub page_offset : ℕ → ℕ → ℕ
page_offset page per_page = min ((page - 1) * per_page) max_u32

abbrev pub is_blank : Text → Bool
is_blank [] = true
is_blank (c ∷ s) = false

-- The parameters of a request; a pin `as_of` is a time from 1970 on.
pub record ListQuery : Type 0 where
  pub page_text : Option Text
  pub per_page_text : Option Text
  pub q : Option Text
  pub as_of : Option ℕ

abbrev pub trimmed : Option Text → Text
trimmed none = []
trimmed (some v) = trim v

module _ (id_text : JobId → Text) (to_lowercase : Text → Text)
    (fuzzy_score : Text → Text → Option ℕ) where
  abbrev pub time_page : ListQuery → ℕ → Database → Page JobListItem
  time_page r revision db =
      let page = page_param r.page_text in
      let per_page = per_page_param 200 r.per_page_text in
      record {
        items = list_index_page r.as_of (page_offset page per_page) per_page db;
        total = count r.as_of db;
        page = page;
        per_page = per_page;
        revision = revision;
        new_count = count_newer r.as_of db;
        as_of = r.as_of;
      }

  abbrev pub search_page : Text → ListQuery → ℕ → Database → Page JobListItem
  search_page query r revision db =
      let page = page_param r.page_text in
      let per_page = per_page_param 200 r.per_page_text in
      record {
        items =
            search_index_page id_text to_lowercase fuzzy_score query (page_offset page per_page)
              per_page db;
        total = search_count id_text to_lowercase query db;
        page = page;
        per_page = per_page;
        revision = revision;
        new_count = 0;
        as_of = r.as_of;
      }

  -- GET /api/jobs, with the revision of the poller.
  unfoldable pub list_jobs : ListQuery → ℕ → Database → Page JobListItem
  unfolding page_param per_page_param page_offset trim list_index_page count count_newer
      search_index_page search_count
  list_jobs r revision db =
      if is_blank (trimmed r.q)
      then time_page r revision db
      else search_page (trimmed r.q) r revision db

abbrev pub boards_page : ListQuery → ℕ → Database → Result (List BoardRow) → Result (Page BoardRow)
boards_page r revision db (err e) = err e
boards_page r revision db (panicked why) = panicked why
boards_page r revision db (ok rows) = ok (record {
  items = rows;
  total = Boards.count r.q db;
  page = page_param r.page_text;
  per_page = per_page_param 100 r.per_page_text;
  revision = revision;
  new_count = 0;
  as_of = none;
})

-- GET /api/boards; the filter is trimmed by the query as well, which takes a blank one for none.
unfoldable pub list_boards : ListQuery → ℕ → Database → Result (Page BoardRow)
unfolding page_param per_page_param page_offset Boards.list_page Boards.count
list_boards r revision db =
    let per_page = per_page_param 100 r.per_page_text in
    boards_page r revision db
      (Boards.list_page r.q (page_offset (page_param r.page_text) per_page) per_page db)

-- GET /api/schedules
unfoldable pub list_schedules : ListQuery → ℕ → Database → Page ScheduleRow
unfolding page_param per_page_param page_offset Schedules.list_page Schedules.count
list_schedules r revision db =
    let page = page_param r.page_text in
    let per_page = per_page_param 100 r.per_page_text in
    record {
      items = Schedules.list_page (page_offset page per_page) per_page db;
      total = Schedules.count db;
      page = page;
      per_page = per_page;
      revision = revision;
      new_count = 0;
      as_of = none;
    }
