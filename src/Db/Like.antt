-- ===== src/Db/Like.antt =====
-- crates/paavo-db/src/like.rs: patterns for SQL's `LIKE … ESCAPE '\'`, and that operator itself, over
-- the code points of a text.
pub mod Subsequence
pub mod Literal
use paavo.Prelude.{
  ℕ, ◌+◌, ◌==◌, leb, ◌≡◌, Bool, true, false, ◌&&◌, ◌||◌, Option, none, some, List, [], ◌∷◌, ◌++◌,
  if◌then◌else◌, Text,
}

abbrev pub percent : ℕ
percent = b'%'

abbrev pub underscore : ℕ
underscore = b'_'

abbrev pub backslash : ℕ
backslash = b'\\'

abbrev pub is_wildcard : ℕ → Bool
is_wildcard c = c == percent || c == underscore || c == backslash

-- What one round of either loop pushes before the character.
abbrev pub escaped : ℕ → Text → Text
escaped c rest = if is_wildcard c then backslash ∷ c ∷ rest else c ∷ rest

unfoldable pub escape_like : Text → Text
escape_like [] = []
escape_like (c ∷ s) = let rest = escape_like s in escaped c rest

unfoldable pub separated : Text → Text
separated [] = []
separated (c ∷ s) = let rest = separated s in escaped c (percent ∷ rest)

unfoldable pub subsequence_pattern : Text → Text
unfolding separated
subsequence_pattern query = percent ∷ separated query

-- A pattern of SQL, read.
pub data Token : Type 0 where
  any_run any_char : Token
  literal : ℕ → Token

abbrev pub push_token : Token → Option (List Token) → Option (List Token)
push_token t none = none
push_token t (some ts) = some (t ∷ ts)

-- A backslash takes the next character as it is; at the end of a pattern it matches nothing. The flag
-- says that a backslash has just been read.
unfoldable pub tokens_from : Bool → Text → Option (List Token)
tokens_from true [] = none
tokens_from false [] = some []
tokens_from true (c ∷ p) = push_token (literal c) (tokens_from false p)
tokens_from false (c ∷ p) =
    let hidden = tokens_from true p in
    let rest = tokens_from false p in
    if c == backslash
    then hidden
    else if c == percent
    then push_token any_run rest
    else if c == underscore
    then push_token any_char rest
    else push_token (literal c) rest

-- `LIKE` folds the case of ASCII letters.
unfoldable pub fold_case : ℕ → ℕ
fold_case c = if leb b'A' c && leb c b'Z' then c + 32 else c

abbrev pub same_letter : ℕ → ℕ → Bool
same_letter c d = fold_case c == fold_case d

-- Somewhere on, the rest fits.
unfoldable pub somewhere : (Text → Bool) → Text → Bool
somewhere fits [] = fits []
somewhere fits (c ∷ s) = fits (c ∷ s) || somewhere fits s

unfoldable pub fits_tokens : List Token → Text → Bool
unfolding somewhere fold_case
fits_tokens [] [] = true
fits_tokens [] (c ∷ s) = false
fits_tokens (any_run ∷ ts) s = somewhere (fits_tokens ts) s
fits_tokens (any_char ∷ ts) [] = false
fits_tokens (any_char ∷ ts) (c ∷ s) = fits_tokens ts s
fits_tokens (literal d ∷ ts) [] = false
fits_tokens (literal d ∷ ts) (c ∷ s) = same_letter d c && fits_tokens ts s

abbrev fits_read : Option (List Token) → Text → Bool
fits_read none s = false
fits_read (some ts) s = fits_tokens ts s

-- `s LIKE pattern ESCAPE '\'`
unfoldable pub like : Text → Text → Bool
unfolding tokens_from fits_tokens
like pattern s = fits_read (tokens_from false pattern) s
