-- ===== src/Db/Board/Pages.antt =====
-- The lists of boards for viewers, and their filter: crates/paavo-db/src/board.rs.
use paavo.Prelude.{
  ℕ, ◌≡◌, refl, sym, ap, ◌∙◌, subst, ◌↔◌, ◌⊎◌, inl, inr, ltb, leb, Bool, true, false, ◌&&◌, ◌||◌,
  Option, none, some, List, [], ◌∷◌, take, drop, take_all, Memᴰ, arith, Text, codes, trim,
  if◌then◌else◌, rows_where, count_where, mem-rows_where, mem-rows_where_of, length-rows_where,
  length, Bool-cases,
}
use paavo.Prelude.Sort.{sort_by, mem-sort_by, mem-sort_by_of, length-sort_by}
use paavo.Proto.Board.{is_healthy}
use paavo.Db.Store.{Database, BoardRow, Result, ok, decode_all}
use paavo.Db.Decode.{decode_all-eq, Board-from_row_same}
use paavo.Db.Board.{from_row, id_leb}
use paavo.Db.Like.{like}
use paavo.Db.Like.Literal.{substring_pattern, Holds, like-substring_pattern}

-- `trim`, and a blank filter is none.
abbrev pub unless_empty : Text → Option Text
unless_empty [] = none
unless_empty (c ∷ s) = some (c ∷ s)

unfoldable pub needle : Option Text → Option Text
unfolding trim
needle none = none
needle (some filter) = unless_empty (trim filter)

-- `id LIKE ?1 ESCAPE '\' OR kind LIKE ?1 ESCAPE '\'`
abbrev pub fits_filter : Option Text → BoardRow → Bool
fits_filter none row = true
fits_filter (some q) row =
    like (substring_pattern q) (codes row.spec.id)
    || like (substring_pattern q) (codes row.spec.kind)

unfoldable pub list_page : Option Text → ℕ → ℕ → Database → Result (List BoardRow)
unfolding from_row needle like
list_page filter offset limit db =
    decode_all from_row (
      take limit
        (drop offset (sort_by id_leb (rows_where (fits_filter (needle filter)) db.boards))))

unfoldable pub count : Option Text → Database → ℕ
unfolding needle like
count filter db = count_where (fits_filter (needle filter)) db.boards

-- `last_used_at DESC`, where NULL comes last, and then `id ASC`.
abbrev pub used_leb : Option ℕ → Option ℕ → Bool → Bool
used_leb none none tie = tie
used_leb none (some b) tie = false
used_leb (some a) none tie = true
used_leb (some a) (some b) tie = ltb b a || (leb b a && tie)

abbrev pub dashboard_leb : BoardRow → BoardRow → Bool
dashboard_leb a b =
    let rest = used_leb a.last_used_at b.last_used_at (id_leb a b) in
    if is_healthy a.spec.health
    then is_healthy b.spec.health && rest
    else is_healthy b.spec.health || rest

unfoldable pub list_dashboard : ℕ → Database → Result (List BoardRow)
unfolding from_row
list_dashboard limit db = decode_all from_row (take limit (sort_by dashboard_leb db.boards))

-- A board is listed under a filter if the trimmed filter stands in its id or its kind.
abbrev pub IsListed : Option Text → BoardRow → Type 0
IsListed none row = Unit
IsListed (some q) row = Holds q (codes row.spec.id) ⊎ Holds q (codes row.spec.kind)

fits_filter→IsListed :
    (q : Option Text) (row : BoardRow) → fits_filter q row ≡ true → IsListed q row
fits_filter→IsListed none row h = tt
fits_filter→IsListed (some q) row h =
    elim (Bool-cases (like (substring_pattern q) (codes row.spec.id))) [
      | inl in_id ↦ inl ((like-substring_pattern q (codes row.spec.id)).0 in_id)
      | inr other ↦
          inr ((like-substring_pattern q (codes row.spec.kind)).0 (ground (arith, h, other)))
    ]

IsListed→fits_filter :
    (q : Option Text) (row : BoardRow) → IsListed q row → fits_filter q row ≡ true
IsListed→fits_filter none row h = refl
IsListed→fits_filter (some q) row (inl h) =
    let e = (like-substring_pattern q (codes row.spec.id)).1 h in ground (arith, e)
IsListed→fits_filter (some q) row (inr h) =
    let e = (like-substring_pattern q (codes row.spec.kind)).1 h in ground (arith, e)

-- When the whole list of boards under a filter can be read, it is as long as the count says and
-- holds exactly the boards whose id or kind holds the trimmed filter up to the case of letters,
-- wildcards taken as they are, and all boards if the filter is blank.
pub list_page-mem :
    (filter : Option Text) (db : Database) {rows : List BoardRow}
    → list_page filter 0 (count filter db) db ≡ ok rows
    → (length rows ≡ count filter db)
      × ((row : BoardRow) → Memᴰ row rows ↔ (Memᴰ row db.boards × IsListed (needle filter) row))
unfolding list_page count
list_page-mem filter db {rows} h =
    let fitting = rows_where (fits_filter (needle filter)) db.boards in
    let len : length (sort_by id_leb fitting) ≡ count filter db =
      length-sort_by id_leb fitting ∙ length-rows_where (fits_filter (needle filter)) db.boards in
    let same : rows ≡ sort_by id_leb fitting =
      decode_all-eq from_row Board-from_row_same _ rows h
      ∙ take_all (count filter db) (sort_by id_leb fitting) (omega (arith, len)) in
    (
      ap length same ∙ len,
      λ row. (
        λ m.
            let (n, t) =
              mem-rows_where (fits_filter (needle filter)) db.boards
                (mem-sort_by id_leb fitting (subst (Memᴰ row) same m)) in
            (n, fits_filter→IsListed (needle filter) row t),
        λ (m, listed). subst (Memᴰ row) (sym same) (
            mem-sort_by_of id_leb fitting (
              mem-rows_where_of (fits_filter (needle filter)) db.boards m
                (IsListed→fits_filter (needle filter) row listed))),
      ),
    )
