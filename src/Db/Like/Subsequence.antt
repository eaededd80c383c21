-- ===== src/Db/Like/Subsequence.antt =====
-- What a fuzzy search matches: crates/paavo-db/src/like.rs, `subsequence_pattern`.
use paavo.Prelude.{
  ℕ, ◌≡◌, refl, ap, ◌∙◌, true, false, ◌&&◌, ◌↔◌, inl, inr, some, List, [], ◌∷◌, arith, Text,
  Bool-cases, &&-eq_true,
}
use paavo.Db.Like.{
  percent, escaped, separated, subsequence_pattern, Token, any_run, literal, push_token,
  tokens_from, same_letter, somewhere, fits_tokens, like,
}

-- The letters of the first text stand in the second, in their order and perhaps in another case.
pub data IsSubsequence : Text → Text → Type 0 where
  empty : {s : Text} → IsSubsequence [] s
  keep :
      {c d : ℕ} {q s : Text}
      → same_letter c d ≡ true
      → IsSubsequence q s
      → IsSubsequence (c ∷ q) (d ∷ s)
  skip : {d : ℕ} {q s : Text} → IsSubsequence q s → IsSubsequence q (d ∷ s)

abbrev interleaved : Text → List Token
interleaved [] = []
interleaved (c ∷ q) = literal c ∷ any_run ∷ interleaved q

pub tokens-escaped :
    (c : ℕ) (rest : Text)
    → tokens_from false (escaped c rest) ≡ push_token (literal c) (tokens_from false rest)
unfolding tokens_from
tokens-escaped c rest = ground arith

tokens-separated : (q : Text) → tokens_from false (separated q) ≡ some (interleaved q)
unfolding separated tokens_from
tokens-separated [] = refl
tokens-separated (c ∷ q) =
    tokens-escaped c (percent ∷ separated q)
    ∙ ap (λ o. push_token (literal c) (push_token any_run o)) (tokens-separated q)

pub somewhere-true : (s : Text) → somewhere (fits_tokens []) s ≡ true
unfolding somewhere fits_tokens
somewhere-true [] = refl
somewhere-true (c ∷ s) = somewhere-true s

fits→IsSubsequence :
    (q s : Text) → fits_tokens (any_run ∷ interleaved q) s ≡ true → IsSubsequence q s
unfolding fits_tokens somewhere
fits→IsSubsequence [] s h = empty
fits→IsSubsequence (c ∷ q) [] h = cc
fits→IsSubsequence (c ∷ q) (d ∷ s) h =
    elim (Bool-cases (same_letter c d && fits_tokens (any_run ∷ interleaved q) s)) [
      | inl here ↦
          let (e, rest) = &&-eq_true (same_letter c d) _ here in
          keep e (fits→IsSubsequence q s rest)
      | inr later ↦ skip (fits→IsSubsequence (c ∷ q) s (ground (arith, h, later)))
    ]

IsSubsequence→fits :
    {q s : Text} → IsSubsequence q s → fits_tokens (any_run ∷ interleaved q) s ≡ true
unfolding fits_tokens somewhere
IsSubsequence→fits (empty {s}) = somewhere-true s
IsSubsequence→fits (keep {c} {d} {q} {s} e h) =
    let ih = IsSubsequence→fits h in ground (arith, e, ih)
IsSubsequence→fits (skip {d} {q} {s} h) = let ih = IsSubsequence→fits h in ground (arith, ih)

-- The pattern of a search matches a text exactly if the letters of the query stand in the text in
-- order, up to case, wildcards taken as they are.
pub like-subsequence_pattern :
    (query s : Text) → (like (subsequence_pattern query) s ≡ true) ↔ IsSubsequence query s
unfolding like subsequence_pattern tokens_from
like-subsequence_pattern query s =
    rw (tokens-separated query) (fits→IsSubsequence query s, IsSubsequence→fits)
