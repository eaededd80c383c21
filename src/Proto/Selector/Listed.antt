-- ===== src/Proto/Selector/Listed.antt =====
-- A selector reads back from a line of `probe-rs list`: crates/paavo-proto/src/board.rs.
use paavo.Prelude.{
  ℕ, ◌/◌, ◌%◌, ◌<◌, ◌==◌, ◌≡◌, refl, ap, ◌∙◌, inr, false, none, some, [], ◌∷◌, ◌++◌, arith, Text,
  codes, trim, trim_start, trim_end, keep_unless_blank, is_whitespace, parse_unsigned, All,
}
use paavo.Proto.Selector.{
  split_once, strip_prefix, rsplit_once, extract_selector_token, token_of, without_kind, hex4,
  hex_digit, parse_token, parse,
}
use paavo.Proto.Selector.Printed.{
  IsVisible, IsDigit, token, printed, trim-visible, rsplit_once-visible, strip_prefix-visible,
  parse_token-token, token-IsVisible, parse-token,
}

-- The last character is no blank.
abbrev Ends : Text → Type 0
Ends [] = ⊥
Ends (c ∷ []) = IsVisible c
Ends (c ∷ d ∷ s) = Ends (d ∷ s)

Ends-cons : (c : ℕ) (s : Text) → Ends s → Ends (c ∷ s)
Ends-cons c [] h = absurd h
Ends-cons c (d ∷ s) h = h

Ends-append : (pre s : Text) → Ends s → Ends (pre ++ s)
Ends-append [] s h = h
Ends-append (c ∷ pre) s h = Ends-cons c (pre ++ s) (Ends-append pre s h)

Ends-visible : (c : ℕ) (s : Text) → IsVisible c → All IsVisible s → Ends (c ∷ s)
Ends-visible c [] e h = e
Ends-visible c (d ∷ s) e h = Ends-visible d s h.0 h.1

trim_end-Ends : (s : Text) → Ends s → trim_end s ≡ s
unfolding trim_end
trim_end-Ends [] h = refl
trim_end-Ends (c ∷ []) h = rw h refl
trim_end-Ends (c ∷ d ∷ s) h = ap (keep_unless_blank c) (trim_end-Ends (d ∷ s) h)

trim-cons : (c : ℕ) (s : Text) → IsVisible c → Ends (c ∷ s) → trim (c ∷ s) ≡ c ∷ s
unfolding trim trim_start
trim-cons c s e h = rw e (trim_end-Ends (c ∷ s) h)

rsplit_once-append :
    (pat pre s before after : Text)
    → rsplit_once pat s ≡ some (before, after)
    → rsplit_once pat (pre ++ s) ≡ some (pre ++ before, after)
unfolding rsplit_once
rsplit_once-append pat [] s before after h = h
rsplit_once-append pat (c ∷ pre) s before after h =
    rw (rsplit_once-append pat pre s before after h) refl

rsplit_once-here :
    (pat s after : Text) (c : ℕ)
    → rsplit_once pat s ≡ none
    → strip_prefix pat (c ∷ s) ≡ some after
    → rsplit_once pat (c ∷ s) ≡ some ([], after)
unfolding rsplit_once
rsplit_once-here pat s after c e f = rw (e, f) refl

rsplit_once-miss :
    (pat s : Text) (c : ℕ)
    → rsplit_once pat s ≡ none
    → strip_prefix pat (c ∷ s) ≡ none
    → rsplit_once pat (c ∷ s) ≡ none
unfolding rsplit_once
rsplit_once-miss pat s c e f = rw (e, f) refl

rsplit_once-past :
    (pat s rest : Text)
    → All IsVisible s
    → rsplit_once (b' ' ∷ pat) rest ≡ none
    → rsplit_once (b' ' ∷ pat) (s ++ rest) ≡ none
rsplit_once-past pat [] rest h e = e
rsplit_once-past pat (c ∷ s) rest h e =
    rsplit_once-miss (b' ' ∷ pat) (s ++ rest) c (rsplit_once-past pat s rest h.1 e)
      (strip_prefix-visible pat (s ++ rest) c h.0)

append_nil : (s : Text) → s ++ [] ≡ s
append_nil [] = refl
append_nil (c ∷ s) = ap (◌∷◌ c) (append_nil s)

paren-IsVisible : IsVisible b'('
unfolding is_whitespace
paren-IsVisible = refl

-- What stands behind the last dashes: the token and the kind of the probe.
abbrev described : Text → Text → Text
described tok kind = tok ++ b' ' ∷ b'(' ∷ kind

module _ (tok kind : Text) (tok_seen : All IsVisible tok) (kind_seen : All IsVisible kind) where
  paren-none : (pat : Text) → rsplit_once (b' ' ∷ pat) (b'(' ∷ kind) ≡ none
  paren-none pat = rsplit_once-visible pat (b'(' ∷ kind) (paren-IsVisible, kind_seen)

  described-Ends : Ends (described tok kind)
  described-Ends =
      Ends-append tok (b' ' ∷ b'(' ∷ kind) (Ends-visible b'(' kind paren-IsVisible kind_seen)

  described-token : rsplit_once (codes " (") (described tok kind) ≡ some (tok, kind)
  unfolding strip_prefix
  described-token =
      rsplit_once-append (codes " (") tok (b' ' ∷ b'(' ∷ kind) [] kind
        (rsplit_once-here (codes " (") (b'(' ∷ kind) kind b' ' (paren-none (codes "(")) refl)
      ∙ ap (λ s. some (s, kind)) (append_nil tok)

  described-none : rsplit_once (codes " -- ") (described tok kind) ≡ none
  unfolding strip_prefix
  described-none =
      rsplit_once-past (codes "-- ") tok (b' ' ∷ b'(' ∷ kind) tok_seen
        (rsplit_once-miss (codes " -- ") (b'(' ∷ kind) b' ' (paren-none (codes "-- ")) refl)

dashes_end : (s : Text) → Ends s → Ends (b' ' ∷ b'-' ∷ b'-' ∷ b' ' ∷ s)
dashes_end s h = Ends-cons b' ' s h

-- A line of the list: a label, dashes, and the description.
abbrev pub listed : ℕ → Text → Text → Text → Text
listed c label tok kind = (c ∷ label) ++ b' ' ∷ b'-' ∷ b'-' ∷ b' ' ∷ described tok kind

module _ (c d : ℕ) (label tok kind : Text) (first_seen : IsVisible c)
    (no_dash : (b'-' == d) ≡ false) (tok_seen : All IsVisible (d ∷ tok))
    (kind_seen : All IsVisible kind) where
  dashed :
      rsplit_once (codes " -- ") (b' ' ∷ b'-' ∷ b'-' ∷ b' ' ∷ described (d ∷ tok) kind)
      ≡ some ([], described (d ∷ tok) kind)
  unfolding strip_prefix
  dashed =
      let body = described (d ∷ tok) kind in
      rsplit_once-here (codes " -- ") (b'-' ∷ b'-' ∷ b' ' ∷ body) body b' '
        (rsplit_once-miss (codes " -- ") (b'-' ∷ b' ' ∷ body) b'-'
          (rsplit_once-miss (codes " -- ") (b' ' ∷ body) b'-'
            (rsplit_once-miss (codes " -- ") body b' '
              (described-none (d ∷ tok) kind tok_seen kind_seen) (rw no_dash refl))
            refl)
          refl)
        refl

  extract-listed : extract_selector_token (listed c label (d ∷ tok) kind) ≡ d ∷ tok
  unfolding extract_selector_token
  extract-listed =
      let body = described (d ∷ tok) kind in
      let line = listed c label (d ∷ tok) kind in
      let ends = described-Ends (d ∷ tok) kind tok_seen kind_seen in
      let whole : trim line ≡ line =
        trim-cons c (label ++ b' ' ∷ b'-' ∷ b'-' ∷ b' ' ∷ body) first_seen
          (Ends-append (c ∷ label) (b' ' ∷ b'-' ∷ b'-' ∷ b' ' ∷ body) (dashes_end body ends)) in
      ap (λ t. token_of t (rsplit_once (codes " -- ") t)) whole
      ∙ (ap (token_of line) (
            rsplit_once-append (codes " -- ") (c ∷ label) (b' ' ∷ b'-' ∷ b'-' ∷ b' ' ∷ body) [] body
              dashed)
          ∙ (ap (λ t. without_kind t (rsplit_once (codes " (") t))
                (trim-cons d (tok ++ b' ' ∷ b'(' ∷ kind) tok_seen.0 ends)
              ∙ (ap (without_kind body) (described-token (d ∷ tok) kind tok_seen kind_seen)
                  ∙ trim-visible (d ∷ tok) tok_seen)))

hex_digit-no_dash : (d : ℕ) → d < 16 → (b'-' == hex_digit d) ≡ false
hex_digit-no_dash d small = ground arith

extract-listed_token :
    (vid pid : ℕ) (digits serial : Text) (c : ℕ) (label kind : Text)
    → IsVisible c
    → All IsVisible (token vid pid digits serial)
    → All IsVisible kind
    → extract_selector_token (listed c label (token vid pid digits serial) kind)
      ≡ token vid pid digits serial
unfolding hex4
extract-listed_token vid pid digits serial c label kind seen tok_seen kind_seen =
    extract-listed c (hex_digit (vid / 4096 % 16)) label _ kind seen
      (hex_digit-no_dash (vid / 4096 % 16) (omega arith)) tok_seen kind_seen

-- The text of a selector with 16-bit vendor and product, an interface of 8 bits in decimal digits
-- and a serial without blanks reads back as its canonical form, by itself and in a line of probe-rs
-- list, between a label that starts with no blank and a kind without blanks.
pub parse-listed :
    (vid pid n : ℕ) (digits serial : Text) (c : ℕ) (label kind : Text)
    → vid < 65_536
    → pid < 65_536
    → parse_unsigned 255 digits ≡ some n
    → All IsDigit digits
    → All IsVisible serial
    → IsVisible c
    → All IsVisible kind
    → (parse (token vid pid digits serial) ≡ inr (printed vid pid n serial))
      × (parse (listed c label (token vid pid digits serial) kind) ≡ inr (printed vid pid n serial))
unfolding parse
parse-listed vid pid n digits serial c label kind low high number decimal plain first_seen
      kind_seen =
    let tok = token vid pid digits serial in
    let seen = token-IsVisible vid pid n digits serial low high number decimal plain in
    (
      parse-token vid pid n digits serial low high number decimal plain,
      ap (λ t. parse_token (split_once b':' t))
            (extract-listed_token vid pid digits serial c label kind first_seen seen kind_seen)
          ∙ parse_token-token vid pid n digits serial low high number decimal,
    )
