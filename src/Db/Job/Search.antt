-- ===== src/Db/Job/Search.antt =====
-- The search over jobs: crates/paavo-db/src/job.rs, `search_index_page`, `search_count` and
-- `list_index_page`.
pub mod Hits
use Prim.Native.Nat.{compare}
use paavo.Prelude.{
  ℕ, ltb, leb, ◌==◌, Bool, true, false, ◌&&◌, ◌||◌, String, Option, none, some, List, [], ◌∷◌, ◌++◌,
  map, take, drop, if◌then◌else◌, rows_where, count_where, Text, codes, trim,
}
use paavo.Prelude.Sort.{sort_by}
use paavo.Proto.Job.{JobId, JobState, Priority}
use paavo.Db.Store.{Database, JobRow}
use paavo.Db.Like.{subsequence_pattern, like, fold_case}
use paavo.Db.Codecs.{state_to_str}
use paavo.Db.Job.Queries.{newest_leb, pinned}

pub record JobListItem : Type 0 where
  pub id : JobId
  pub state : JobState
  pub priority : Priority
  pub submitter : String
  pub board_id : Option String
  pub submitted_at : ℕ

-- Every column that it reads is held decoded.
abbrev pub index_row : JobRow → JobListItem
index_row row = record {
  id = row.id;
  state = row.state;
  priority = row.priority;
  submitter = row.submitter;
  board_id = row.board_id;
  submitted_at = row.submitted_at;
}

abbrev pub optional_codes : Option String → Text
optional_codes none = []
optional_codes (some s) = codes s

abbrev space : ℕ
space = b' '

-- `ORDER BY score DESC`, where NULL comes last.
abbrev pub score_geb : Option ℕ → Option ℕ → Bool
score_geb none none = true
score_geb none (some b) = false
score_geb (some a) none = true
score_geb (some a) (some b) = leb b a

abbrev pub score_eqb : Option ℕ → Option ℕ → Bool
score_eqb none none = true
score_eqb none (some b) = false
score_eqb (some a) none = false
score_eqb (some a) (some b) = a == b

abbrev pub ranks : Option ℕ → Option ℕ → Bool → Bool
ranks x y tie = score_geb x y && (if score_eqb x y then tie else true)

-- The text of an id, `str::to_lowercase` for characters beyond ASCII, and the matcher that scores the
-- hits are not the repository's own. Scores are moved to natural numbers, in their order.
unfoldable pub needle : (Text → Text) → Text → Text
unfolding trim
needle to_lowercase q = to_lowercase (trim q)

module _ (id_text : JobId → Text) where
  -- `lower(id || ' ' || submitter || ' ' || state || ' ' || coalesce(board_id, ''))`; `lower` of SQL
  -- knows ASCII only.
  unfoldable pub haystack : JobRow → Text
  unfolding state_to_str fold_case
  haystack row = map fold_case (
      id_text row.id
      ++ (space ∷ codes row.submitter)
      ++ (space ∷ codes (state_to_str row.state))
      ++ (space ∷ optional_codes row.board_id))

  abbrev pub is_hit : Text → JobRow → Bool
  is_hit query row = like (subsequence_pattern query) (haystack row)

  unfoldable pub search_count : (Text → Text) → Text → Database → ℕ
  unfolding haystack needle like subsequence_pattern
  search_count to_lowercase q db = count_where (is_hit (needle to_lowercase q)) db.jobs

module _ (id_text : JobId → Text) (to_lowercase : Text → Text)
    (fuzzy_score : Text → Text → Option ℕ) where
  abbrev pub score : Text → JobRow → Option ℕ
  score query row = fuzzy_score (haystack id_text row) query

  abbrev pub best_leb : Text → JobRow → JobRow → Bool
  best_leb query a b = ranks (score query a) (score query b) (newest_leb a b)

  unfoldable pub search_index_page : Text → ℕ → ℕ → Database → List JobListItem
  unfolding haystack needle like subsequence_pattern
  search_index_page q offset limit db =
      let hits = rows_where (is_hit id_text (needle to_lowercase q)) db.jobs in
      map index_row (take limit (drop offset (sort_by (best_leb (needle to_lowercase q)) hits)))

unfoldable pub list_index_page : Option ℕ → ℕ → ℕ → Database → List JobListItem
list_index_page as_of offset limit db =
    map index_row
      (take limit (drop offset (sort_by newest_leb (rows_where (pinned as_of) db.jobs))))
