-- ===== src/Db/Job/Search/Hits.antt =====
-- Which jobs a search finds, and in which order: crates/paavo-db/src/job.rs.
use paavo.Prelude.{
  ℕ, ◌≡◌, refl, sym, ◌∙◌, ◌↔◌, Bool, true, false, Option, none, some, List, map, take, drop, Memᴰ,
  arith, length, rows_where, mem-rows_where, mem-rows_where_of, length-rows_where, Text,
}
use paavo.Prelude.Sort.{
  sort_by, IsOrdered, sort_by-IsOrdered, mem-sort_by, mem-sort_by_of, length-sort_by,
}
use paavo.Proto.Job.{JobId}
use paavo.Db.Store.{Database, JobRow}
use paavo.Db.Like.Subsequence.{IsSubsequence, like-subsequence_pattern}
use paavo.Db.Job.Queries.{newest_leb}
use paavo.Db.Job.Search.{
  index_row, score_geb, ranks, haystack, needle, is_hit, score, best_leb, search_index_page,
  search_count,
}

ranks→geb : (x y : Option ℕ) (tie : Bool) → ranks x y tie ≡ true → score_geb x y ≡ true
ranks→geb x y tie h = ground arith

ranks-false : (x y : Option ℕ) (tie : Bool) → ranks x y tie ≡ false → score_geb y x ≡ true
ranks-false none none tie h = refl
ranks-false none (some b) tie h = refl
ranks-false (some a) none tie h = cc
ranks-false (some a) (some b) tie h = ground arith

score_geb_trans :
    (x y z : Option ℕ) → score_geb x y ≡ true → score_geb y z ≡ true → score_geb x z ≡ true
score_geb_trans x y z h k = ground arith

module _ (id_text : JobId → Text) (to_lowercase : Text → Text)
    (fuzzy_score : Text → Text → Option ℕ) where
  -- The query as it is matched, and the order of the hits.
  abbrev pub IsBetter : Text → JobRow → JobRow → Type 0
  IsBetter q a b =
      score_geb (score id_text to_lowercase fuzzy_score (needle to_lowercase q) a)
        (score id_text to_lowercase fuzzy_score (needle to_lowercase q) b)
      ≡ true

  -- The pages of a search are windows on one list: the jobs whose haystack holds the letters of the
  -- needle in order, the best scores first.
  abbrev pub IsResult : Text → Database → List JobRow → Type 0
  IsResult q db hits =
      ((offset limit : ℕ)
        → search_index_page id_text to_lowercase fuzzy_score q offset limit db
          ≡ map index_row (take limit (drop offset hits)))
      × (search_count id_text to_lowercase q db ≡ length hits)
      × ((row : JobRow)
          → Memᴰ row hits
            ↔ (Memᴰ row db.jobs × IsSubsequence (needle to_lowercase q) (haystack id_text row)))
      × IsOrdered (IsBetter q) hits

  mem-hits :
      (q : Text) (db : Database) (row : JobRow)
      → Memᴰ row (
          sort_by
            (best_leb id_text to_lowercase fuzzy_score (needle to_lowercase q))
            (rows_where (is_hit id_text (needle to_lowercase q)) db.jobs))
        ↔ (Memᴰ row db.jobs × IsSubsequence (needle to_lowercase q) (haystack id_text row))
  mem-hits q db row = (
    λ m.
        let (n, t) = mem-rows_where _ db.jobs (mem-sort_by _ _ m) in
        (n, (like-subsequence_pattern (needle to_lowercase q) (haystack id_text row)).0 t),
    λ (m, s). mem-sort_by_of _ _ (
        mem-rows_where_of _ db.jobs m
          ((like-subsequence_pattern (needle to_lowercase q) (haystack id_text row)).1 s)),
  )

  hits-IsOrdered :
      (q : Text) (rows : List JobRow)
      → IsOrdered
          (IsBetter q)
          (sort_by (best_leb id_text to_lowercase fuzzy_score (needle to_lowercase q)) rows)
  hits-IsOrdered q rows =
      let rank = score id_text to_lowercase fuzzy_score (needle to_lowercase q) in
      sort_by-IsOrdered _ (IsBetter q) (λ a b h. ranks→geb (rank a) (rank b) (newest_leb a b) h)
        (λ a b h. ranks-false (rank a) (rank b) (newest_leb a b) h)
        (λ a b c h k. score_geb_trans (rank a) (rank b) (rank c) h k) rows

  -- Whatever the text of ids, the lowercasing and the scores are, the pages of a search are windows
  -- on one list, as long as the count says, of exactly the jobs in whose haystack the letters of the
  -- needle stand in order, the best scores first.
  pub search_lem : (q : Text) (db : Database) → (hits : List JobRow) × IsResult q db hits
  unfolding search_index_page search_count
  search_lem q db = (
    sort_by (best_leb id_text to_lowercase fuzzy_score (needle to_lowercase q))
        (rows_where (is_hit id_text (needle to_lowercase q)) db.jobs),
    (
      λ offset limit. refl,
      sym (length-sort_by _ _ ∙ length-rows_where _ db.jobs),
      mem-hits q db,
      hits-IsOrdered q _,
    ),
  )
