-- ===== src/Db/Like/Literal.antt =====
-- What the filter of the fleet matches: crates/paavo-db/src/like.rs, `escape_like` between two `%`.
use paavo.Prelude.{
  ℕ, ◌≡◌, refl, ap, ◌∙◌, true, false, ◌↔◌, inl, inr, some, List, [], ◌∷◌, ◌++◌, arith, Text,
  Bool-cases, &&-eq_true,
}
use paavo.Db.Like.{
  percent, escaped, escape_like, Token, any_run, literal, push_token, tokens_from, same_letter,
  somewhere, fits_tokens, like,
}
use paavo.Db.Like.Subsequence.{tokens-escaped, somewhere-true}

-- `format!("%{}%", escape_like(q))`
abbrev pub substring_pattern : Text → Text
substring_pattern q = percent ∷ (escape_like q ++ percent ∷ [])

-- The second text begins with the first, and holds it somewhere, up to the case of letters.
pub data Begins : Text → Text → Type 0 where
  empty : {s : Text} → Begins [] s
  letter : {c d : ℕ} {q s : Text} → same_letter c d ≡ true → Begins q s → Begins (c ∷ q) (d ∷ s)

pub data Holds : Text → Text → Type 0 where
  here : {q s : Text} → Begins q s → Holds q s
  later : {d : ℕ} {q s : Text} → Holds q s → Holds q (d ∷ s)

abbrev literals : Text → List Token
literals [] = any_run ∷ []
literals (c ∷ q) = literal c ∷ literals q

escaped-append : (c : ℕ) (rest more : Text) → escaped c rest ++ more ≡ escaped c (rest ++ more)
escaped-append c rest more = ground arith

tokens-literals : (q : Text) → tokens_from false (escape_like q ++ percent ∷ []) ≡ some (literals q)
unfolding escape_like tokens_from
tokens-literals [] = refl
tokens-literals (c ∷ q) =
    ap (tokens_from false) (escaped-append c (escape_like q) (percent ∷ []))
    ∙ (tokens-escaped c (escape_like q ++ percent ∷ [])
        ∙ ap (push_token (literal c)) (tokens-literals q))

fits→Begins : (q s : Text) → fits_tokens (literals q) s ≡ true → Begins q s
unfolding fits_tokens
fits→Begins [] s h = empty
fits→Begins (c ∷ q) [] h = cc
fits→Begins (c ∷ q) (d ∷ s) h =
    let (e, rest) = &&-eq_true (same_letter c d) _ h in letter e (fits→Begins q s rest)

Begins→fits : {q s : Text} → Begins q s → fits_tokens (literals q) s ≡ true
unfolding fits_tokens
Begins→fits (empty {s}) = somewhere-true s
Begins→fits (letter e h) = let ih = Begins→fits h in ground (arith, e, ih)

fits→Holds : (q s : Text) → somewhere (fits_tokens (literals q)) s ≡ true → Holds q s
unfolding somewhere
fits→Holds q [] h = here (fits→Begins q [] h)
fits→Holds q (d ∷ s) h = elim (Bool-cases (fits_tokens (literals q) (d ∷ s))) [
  | inl begins ↦ here (fits→Begins q (d ∷ s) begins)
  | inr other ↦ later (fits→Holds q s (ground (arith, h, other)))
]

begins-somewhere :
    (q s : Text) → fits_tokens (literals q) s ≡ true → somewhere (fits_tokens (literals q)) s ≡ true
unfolding somewhere
begins-somewhere q [] h = h
begins-somewhere q (d ∷ s) h = ground (arith, h)

Holds→fits : {q s : Text} → Holds q s → somewhere (fits_tokens (literals q)) s ≡ true
unfolding somewhere
Holds→fits (here {q} {s} h) = begins-somewhere q s (Begins→fits h)
Holds→fits (later h) = let ih = Holds→fits h in ground (arith, ih)

-- The pattern of a filter matches a text exactly if the filter stands in it, wildcards included.
pub like-substring_pattern : (q s : Text) → (like (substring_pattern q) s ≡ true) ↔ Holds q s
unfolding like tokens_from fits_tokens
like-substring_pattern q s = rw (tokens-literals q) (fits→Holds q s, Holds→fits)
