-- ===== src/Web/Windows.antt =====
-- The pages of the jobs list are windows on one list: crates/paavo-web/src/api/jobs.rs.
use native.Mathlib.Nat.{div-add-mod', mod-lt}
use paavo.Prelude.{
  ℕ, zero, suc, ◌+◌, ◌-◌, ◌*◌, ◌/◌, ◌%◌, ◌^◌, ◌≤◌, ◌<◌, min, ◌≡◌, refl, sym, ap, ◌∙◌, inl, inr,
  Option, none, some, List, [], ◌∷◌, map, take, drop, length, arith, Text, Bool-cases, rows_where,
  length-rows_where, length-map,
}
use paavo.Prelude.Sort.{sort_by, length-sort_by}
use paavo.Proto.Job.{JobId}
use paavo.Db.Store.{Database}
use paavo.Db.Job.Queries.{count, newest_leb, pinned}
use paavo.Db.Job.Search.{JobListItem, index_row, list_index_page}
use paavo.Db.Job.Search.Hits.{search_lem}
use paavo.Web.{
  Page, ListQuery, page_param, per_page_param, page_offset, max_u32, is_blank, trimmed, time_page,
  search_page, list_jobs,
}

offset_sum : (a q r i : ℕ) → a ≡ q → q + r ≡ i → i < 2 ^ 32 → min a max_u32 + r ≡ i
offset_sum a q r i e f small = omega (arith, e, f, small)

module _ {ℓ} {A : Type ℓ} where
  abbrev pub get_at : ℕ → List A → Option A
  get_at i [] = none
  get_at zero (x ∷ xs) = some x
  get_at (suc i) (x ∷ xs) = get_at i xs

  get_at-take : (j n : ℕ) (xs : List A) → j < n → get_at j (take n xs) ≡ get_at j xs
  get_at-take j zero xs h = absurd (omega arith)
  get_at-take j (suc n) [] h = refl
  get_at-take zero (suc n) (x ∷ xs) h = refl
  get_at-take (suc j) (suc n) (x ∷ xs) h = get_at-take j n xs (omega arith)

  get_at-drop : (k j : ℕ) (xs : List A) → get_at j (drop k xs) ≡ get_at (k + j) xs
  get_at-drop zero j xs = ap (λ i. get_at i xs) (omega arith)
  get_at-drop (suc k) j [] = refl
  get_at-drop (suc k) j (x ∷ xs) = get_at-drop k j xs ∙ ap (λ i. get_at i (x ∷ xs)) (suc_add k j)
    where
      suc_add : (m n : ℕ) → suc (m + n) ≡ suc m + n
      suc_add m n = omega arith

  -- The entry at `i` stands on page `i / per_page + 1`.
  get_at-window :
      (page per_page i : ℕ) (xs : List A)
      → 0 < per_page
      → i < 2 ^ 32
      → page ≡ i / per_page + 1
      → get_at (i % per_page) (take per_page (drop (page_offset page per_page) xs)) ≡ get_at i xs
  unfolding page_offset
  get_at-window page per_page i xs pos small e =
      let before : page - 1 ≡ i / per_page = omega (arith, e) in
      let offset : page_offset page per_page + i % per_page ≡ i =
        offset_sum ((page - 1) * per_page) (i / per_page * per_page) (i % per_page) i
          (ap (λ k. k * per_page) before) (div-add-mod' i per_page) small in
      get_at-take (i % per_page) per_page (drop (page_offset page per_page) xs) (mod-lt i pos)
      ∙ (get_at-drop (page_offset page per_page) (i % per_page) xs ∙ ap (λ k. get_at k xs) offset)

map-take : {A B : Type 0} (f : A → B) (n : ℕ) (xs : List A) → map f (take n xs) ≡ take n (map f xs)
map-take f zero xs = refl
map-take f (suc n) [] = refl
map-take f (suc n) (x ∷ xs) = ap (◌∷◌ (f x)) (map-take f n xs)

map-drop : {A B : Type 0} (f : A → B) (n : ℕ) (xs : List A) → map f (drop n xs) ≡ drop n (map f xs)
map-drop f zero xs = refl
map-drop f (suc n) [] = refl
map-drop f (suc n) (x ∷ xs) = map-drop f n xs

map-window :
    {A B : Type 0} (f : A → B) (offset limit : ℕ) (xs : List A)
    → map f (take limit (drop offset xs)) ≡ take limit (drop offset (map f xs))
map-window f offset limit xs =
    map-take f limit (drop offset xs) ∙ ap (take limit) (map-drop f offset xs)

-- A page of a list, as the client is told of it.
abbrev pub IsWindow : List JobListItem → Page JobListItem → Type 0
IsWindow hits p =
    (p.total ≡ length hits)
    × (1 ≤ p.page)
    × (1 ≤ p.per_page)
    × (p.per_page ≤ 200)
    × ((i : ℕ)
        → i < 2 ^ 32
        → p.page ≡ i / p.per_page + 1
        → get_at (i % p.per_page) p.items ≡ get_at i hits)

page_param-le : (v : Option Text) → 1 ≤ page_param v
unfolding page_param
page_param-le v = omega arith

per_page_param-le : (v : Option Text) → (1 ≤ per_page_param 200 v) × (per_page_param 200 v ≤ 200)
unfolding per_page_param
per_page_param-le v = (omega arith, omega arith)

-- Requests that differ in their pages are served from one list.
abbrev pub same_list : ListQuery → Option Text → Option Text → ListQuery
same_list r page_text per_page_text = record r {
  page_text = page_text;
  per_page_text = per_page_text;
}

module _ (id_text : JobId → Text) (to_lowercase : Text → Text)
    (fuzzy_score : Text → Text → Option ℕ) (db : Database) where
  time_page-IsWindow :
      (r : ListQuery) (revision : ℕ)
      → IsWindow
          (map index_row (sort_by newest_leb (rows_where (pinned r.as_of) db.jobs)))
          (time_page id_text to_lowercase fuzzy_score r revision db)
  unfolding list_index_page count
  time_page-IsWindow r revision =
      let rows = sort_by newest_leb (rows_where (pinned r.as_of) db.jobs) in
      let (low, high) = per_page_param-le r.per_page_text in
      (
        sym (
            length-map index_row rows
            ∙ (length-sort_by newest_leb _ ∙ length-rows_where (pinned r.as_of) db.jobs)),
        page_param-le r.page_text,
        low,
        high,
        λ i small e.
            ap (get_at (i % per_page_param 200 r.per_page_text)) (map-window index_row _ _ rows)
            ∙ get_at-window (page_param r.page_text) (per_page_param 200 r.per_page_text) i
                (map index_row rows) low small e,
      )

  search_page-IsWindow :
      (query : Text) (r : ListQuery) (revision : ℕ)
      → IsWindow
          (map index_row (search_lem id_text to_lowercase fuzzy_score query db).0)
          (search_page id_text to_lowercase fuzzy_score query r revision db)
  search_page-IsWindow query r revision =
      let (hits, (pages, total, _, _)) = search_lem id_text to_lowercase fuzzy_score query db in
      let (low, high) = per_page_param-le r.per_page_text in
      (
        total ∙ sym (length-map index_row hits),
        page_param-le r.page_text,
        low,
        high,
        λ i small e.
            ap (get_at (i % per_page_param 200 r.per_page_text)) (
              pages (page_offset (page_param r.page_text) (per_page_param 200 r.per_page_text))
                (per_page_param 200 r.per_page_text)
              ∙ map-window index_row _ _ hits)
            ∙ get_at-window (page_param r.page_text) (per_page_param 200 r.per_page_text) i
                (map index_row hits) low small e,
      )

  -- Requests that differ only in their pages are served from one list of hits, with its length as
  -- the total, a page from 1 on and 1 to 200 entries a page; an entry below 2^32 stands where its
  -- page and place say.
  pub list_jobs-IsWindow :
      (r : ListQuery)
      → (hits : List JobListItem) × ((page_text per_page_text : Option Text) (revision : ℕ)
          → IsWindow hits (
              list_jobs id_text to_lowercase fuzzy_score
                (same_list r page_text per_page_text)
                revision
                db))
  unfolding list_jobs
  list_jobs-IsWindow r = elim (Bool-cases (is_blank (trimmed r.q))) [
    | inl blank ↦ (
      map index_row (sort_by newest_leb (rows_where (pinned r.as_of) db.jobs)),
      λ page per revision. rw blank (time_page-IsWindow (same_list r page per) revision),
    )
    | inr query ↦ (
      map index_row (search_lem id_text to_lowercase fuzzy_score (trimmed r.q) db).0,
      λ page per revision.
          rw query (search_page-IsWindow (trimmed r.q) (same_list r page per) revision),
    )
  ]
