-- ===== src/Proto/Selector/Printed.antt =====
-- A selector reads back from its text: crates/paavo-proto/src/board.rs.
use mathlib.Core.Path.{ap₂}
use paavo.Prelude.{
  ℕ, ◌/◌, ◌%◌, ◌<◌, ◌==◌, ◌≡◌, refl, ap, ◌∙◌, inr, true, false, none, some, [], ◌∷◌, ◌++◌, arith,
  Text, codes, trim, trim_start, trim_end, keep_unless_blank, is_whitespace, is_digit,
  parse_unsigned, All, All-append,
}
use paavo.Proto.Board.{ProbeSelector}
use paavo.Proto.Selector.Hex.{parse_hex_u16-hex4}
use paavo.Proto.Selector.{
  split_once, strip_prefix, rsplit_once, extract_selector_token, token_of, hex_digit, hex4,
  is_empty, interface_of, pid_and_interface, checked, parse_fields, parse_token, parse,
}

abbrev pub IsVisible : ℕ → Type 0
IsVisible c = is_whitespace c ≡ false

abbrev pub IsDigit : ℕ → Type 0
IsDigit c = is_digit c ≡ true

trim_end-visible : (s : Text) → All IsVisible s → trim_end s ≡ s
unfolding trim_end
trim_end-visible [] h = refl
trim_end-visible (c ∷ s) h = ap (keep_unless_blank c) (trim_end-visible s h.1) ∙ kept s
  where
    kept : (s : Text) → keep_unless_blank c s ≡ c ∷ s
    kept [] = rw (h.0) refl
    kept (d ∷ s) = refl

trim_start-visible : (s : Text) → All IsVisible s → trim_start s ≡ s
unfolding trim_start
trim_start-visible [] h = refl
trim_start-visible (c ∷ s) h = rw (h.0) refl

pub trim-visible : (s : Text) → All IsVisible s → trim s ≡ s
unfolding trim
trim-visible s h = ap trim_end (trim_start-visible s h) ∙ trim_end-visible s h

no_space : (c : ℕ) → is_whitespace c ≡ false → (b' ' == c) ≡ false
unfolding is_whitespace
no_space c e = ground arith

pub strip_prefix-visible :
    (pat s : Text) (c : ℕ) → IsVisible c → strip_prefix (b' ' ∷ pat) (c ∷ s) ≡ none
unfolding strip_prefix
strip_prefix-visible pat s c e = rw (no_space c e) refl

pub rsplit_once-visible : (pat s : Text) → All IsVisible s → rsplit_once (b' ' ∷ pat) s ≡ none
unfolding rsplit_once
rsplit_once-visible pat [] h = refl
rsplit_once-visible pat (c ∷ s) h =
    ap₂
      (λ later here. elim later [
        | some (before, after) ↦ some (c ∷ before, after)
        | none ↦ elim here [ none ↦ none | some after ↦ some ([], after) ]
      ])
      (rsplit_once-visible pat s h.1) (strip_prefix-visible pat s c h.0)

extract-visible : (s : Text) → All IsVisible s → extract_selector_token s ≡ s
unfolding extract_selector_token
extract-visible s h =
    ap (λ t. token_of t (rsplit_once (codes " -- ") t)) (trim-visible s h)
    ∙ ap (token_of s) (rsplit_once-visible (codes "-- ") s h)

split_once-append :
    (sep : ℕ) (s rest : Text)
    → (sep == sep) ≡ true
    → All (λ c. (c == sep) ≡ false) s
    → split_once sep (s ++ sep ∷ rest) ≡ (s, some rest)
unfolding split_once
split_once-append sep [] rest same h = rw same refl
split_once-append sep (c ∷ s) rest same h = rw (h.0, split_once-append sep s rest same h.1) refl

dash-IsVisible : IsVisible b'-'
unfolding is_whitespace
dash-IsVisible = refl

colon-IsVisible : IsVisible b':'
unfolding is_whitespace
colon-IsVisible = refl

hex4-All : (P : ℕ → Type 0) (n : ℕ) → ((d : ℕ) → d < 16 → P (hex_digit d)) → All P (hex4 n)
unfolding hex4
hex4-All P n h = (
  h (n / 4096 % 16) (omega arith),
  (h (n / 256 % 16) (omega arith), (h (n / 16 % 16) (omega arith), (h (n % 16) (omega arith), tt))),
)

abbrev IsPlain : ℕ → Type 0
IsPlain c = IsVisible c × ((c == b':') ≡ false) × ((c == b'-') ≡ false)

hex_digit-IsPlain : (d : ℕ) → d < 16 → IsPlain (hex_digit d)
unfolding is_whitespace
hex_digit-IsPlain d small = (ground arith, ground arith, ground arith)

IsDigit-IsPlain : (c : ℕ) → IsDigit c → IsPlain c
unfolding is_whitespace
IsDigit-IsPlain c h = (ground arith, ground arith, ground arith)

All-map : (P Q : ℕ → Type 0) (s : Text) → ((c : ℕ) → P c → Q c) → All P s → All Q s
All-map P Q [] f h = tt
All-map P Q (c ∷ s) f h = (f c h.0, All-map P Q s f h.1)

no_empty : (n : ℕ) → ¬ (parse_unsigned 255 [] ≡ some n)
unfolding parse_unsigned
no_empty n e = cc

-- An interface is a number, written in decimal.
interface_of-digits :
    (digits : Text) (n : ℕ)
    → parse_unsigned 255 digits ≡ some n
    → interface_of digits ≡ inr (some n)
interface_of-digits [] n e = absurd (no_empty n e)
interface_of-digits (c ∷ s) n e = rw e refl

is_empty-hex4 : (n : ℕ) → is_empty (hex4 n) ≡ false
unfolding hex4
is_empty-hex4 n = refl

abbrev pub printed : ℕ → ℕ → ℕ → Text → ProbeSelector
printed vid pid n serial = record {
  vid = hex4 vid;
  pid = hex4 pid;
  serial = serial;
  interface = some n;
}

-- The text of a selector.
abbrev pub token : ℕ → ℕ → Text → Text → Text
token vid pid digits serial = hex4 vid ++ b':' ∷ ((hex4 pid ++ b'-' ∷ digits) ++ b':' ∷ serial)

module _ (vid pid n : ℕ) (digits serial : Text) (low : vid < 65_536) (high : pid < 65_536)
    (number : parse_unsigned 255 digits ≡ some n) (decimal : All IsDigit digits) where
  plain : All IsPlain digits
  plain = All-map IsDigit IsPlain digits IsDigit-IsPlain decimal

  hex4-IsPlain : (m : ℕ) → All IsPlain (hex4 m)
  hex4-IsPlain m = hex4-All IsPlain m hex_digit-IsPlain

  visible : (s : Text) → All IsPlain s → All IsVisible s
  visible s h = All-map IsPlain IsVisible s (λ c p. p.0) h

  checked-hex4 : checked (hex4 vid) (hex4 pid, some n) serial ≡ inr (printed vid pid n serial)
  checked-hex4 =
      rw
        (
          is_empty-hex4 vid,
          is_empty-hex4 pid,
          parse_hex_u16-hex4 vid low,
          parse_hex_u16-hex4 pid high,
        )
        refl

  pid_and_interface-hex4 : pid_and_interface (hex4 pid, some digits) ≡ inr (hex4 pid, some n)
  pid_and_interface-hex4 =
      rw
        (
          trim-visible digits (visible digits plain),
          interface_of-digits digits n number,
          trim-visible (hex4 pid) (visible (hex4 pid) (hex4-IsPlain pid)),
        )
        refl

  parse_fields-hex4 :
      parse_fields (hex4 vid) (hex4 pid ++ b'-' ∷ digits, some serial)
      ≡ inr (printed vid pid n serial)
  parse_fields-hex4 =
      let hex = hex4-IsPlain pid in
      let pid_field = hex4 pid ++ b'-' ∷ digits in
      let seen : All IsVisible pid_field =
        All-append IsVisible (hex4 pid) (b'-' ∷ digits) (visible (hex4 pid) hex)
          (dash-IsVisible, visible digits plain) in
      let parted : split_once b'-' pid_field ≡ (hex4 pid, some digits) =
        split_once-append b'-' (hex4 pid) digits refl
          (All-map IsPlain (λ c. (c == b'-') ≡ false) (hex4 pid) (λ c p. p.2) hex) in
      rw
        (
          trim-visible pid_field seen,
          parted,
          pid_and_interface-hex4,
          trim-visible (hex4 vid) (visible (hex4 vid) (hex4-IsPlain vid)),
        )
        checked-hex4

  no_colon : All (λ c. (c == b':') ≡ false) (hex4 pid ++ b'-' ∷ digits)
  no_colon =
      All-append (λ c. (c == b':') ≡ false) (hex4 pid) (b'-' ∷ digits)
        (colon_free (hex4 pid) (hex4-IsPlain pid)) (refl, colon_free digits plain)
    where
      colon_free : (s : Text) → All IsPlain s → All (λ c. (c == b':') ≡ false) s
      colon_free s h = All-map IsPlain (λ c. (c == b':') ≡ false) s (λ c p. p.1) h

  pub parse_token-token :
      parse_token (split_once b':' (token vid pid digits serial)) ≡ inr (printed vid pid n serial)
  parse_token-token =
      ap parse_token (
        split_once-append b':' (hex4 vid) ((hex4 pid ++ b'-' ∷ digits) ++ b':' ∷ serial) refl
          (All-map IsPlain (λ c. (c == b':') ≡ false) (hex4 vid) (λ c p. p.1) (hex4-IsPlain vid)))
      ∙ (ap (parse_fields (hex4 vid))
            (split_once-append b':' (hex4 pid ++ b'-' ∷ digits) serial refl no_colon)
          ∙ parse_fields-hex4)

  pub token-IsVisible : All IsVisible serial → All IsVisible (token vid pid digits serial)
  token-IsVisible h = All-append IsVisible (hex4 vid) _ (visible (hex4 vid) (hex4-IsPlain vid)) (
    colon-IsVisible,
    All-append IsVisible (hex4 pid ++ b'-' ∷ digits) _
        (All-append IsVisible (hex4 pid) _ (visible (hex4 pid) (hex4-IsPlain pid))
          (dash-IsVisible, visible digits plain))
        (colon-IsVisible, h),
  )

  pub parse-token :
      All IsVisible serial → parse (token vid pid digits serial) ≡ inr (printed vid pid n serial)
  unfolding parse
  parse-token h =
      ap (λ t. parse_token (split_once b':' t))
        (extract-visible (token vid pid digits serial) (token-IsVisible h))
      ∙ parse_token-token
