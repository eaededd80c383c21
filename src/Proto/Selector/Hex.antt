-- ===== src/Proto/Selector/Hex.antt =====
-- Four hexadecimal digits, written and read: crates/paavo-proto/src/board.rs.
use mathlib.Core.Path.{ap₂}
use paavo.Prelude.{
  ℕ, ◌+◌, ◌*◌, ◌/◌, ◌%◌, ◌≤◌, ◌<◌, leb, ◌==◌, ◌≡◌, refl, ap, subst, ◌∙◌, Bool, true, false, Option,
  none, some, [], ◌∷◌, arith, if◌then◌else◌, Text, trim, trim_start, trim_end, is_whitespace,
}
use paavo.Proto.Selector.{
  hex_value, hex_digit, hex4, parse_hex_digits, from_str_radix_16, without_0x, strip_prefix,
  nonempty_hex, parse_hex_u16,
}

-- What the proof needs to know of a digit as `format!` writes it.
record IsHexDigit (c d : ℕ) : Type 0 where
  value : hex_value c ≡ some d
  visible : is_whitespace c ≡ false
  no_x : (b'x' == c) ≡ false
  no_upper_x : (b'X' == c) ≡ false
  no_plus : (c == b'+') ≡ false

hex_digit-IsHexDigit : (d : ℕ) → d < 16 → IsHexDigit (hex_digit d) d
unfolding hex_value is_whitespace
hex_digit-IsHexDigit d small = record {
  value = ground arith;
  visible = ground arith;
  no_x = ground arith;
  no_upper_x = ground arith;
  no_plus = ground arith;
}

parse_hex_digits-cons :
    (c d n : ℕ) (s : Text)
    → hex_value c ≡ some d
    → leb (n * 16 + d) 65_535 ≡ true
    → parse_hex_digits (c ∷ s) n ≡ parse_hex_digits s (n * 16 + d)
unfolding parse_hex_digits
parse_hex_digits-cons c d n s e within =
    ap
      (λ v. elim v [
        | none ↦ none
        | some d ↦ if leb (n * 16 + d) 65_535 then parse_hex_digits s (n * 16 + d) else none
      ])
      e
    ∙ rw within refl

strip_prefix-other :
    (p q c d : ℕ) (s : Text) → (q == d) ≡ false → strip_prefix (p ∷ q ∷ []) (c ∷ d ∷ s) ≡ none
unfolding strip_prefix
strip_prefix-other p q c d s e =
    ap (λ b. if p == c then (if b then some s else none) else none) e ∙ never (p == c)
  where
    never : (b : Bool) → ◌≡◌ {A = Option Text} (if b then none else none) none
    never true = refl
    never false = refl

fits : (n d : ℕ) → n < 4096 → d < 16 → leb (n * 16 + d) 65_535 ≡ true
fits n d e f = ground arith

no_plus :
    (c : ℕ) (s : Text)
    → (c == b'+') ≡ false
    → from_str_radix_16 (c ∷ s) ≡ parse_hex_digits (c ∷ s) 0
no_plus c s e = rw e refl

module _ (c₀ c₁ c₂ c₃ : ℕ) where
  trim-digits :
      is_whitespace c₀ ≡ false
      → is_whitespace c₃ ≡ false
      → trim (c₀ ∷ c₁ ∷ c₂ ∷ c₃ ∷ []) ≡ c₀ ∷ c₁ ∷ c₂ ∷ c₃ ∷ []
  unfolding trim trim_start trim_end
  trim-digits e f = rw (e, f) refl

  without_0x-digits :
      (b'x' == c₁) ≡ false
      → (b'X' == c₁) ≡ false
      → without_0x (c₀ ∷ c₁ ∷ c₂ ∷ c₃ ∷ []) ≡ c₀ ∷ c₁ ∷ c₂ ∷ c₃ ∷ []
  without_0x-digits e f =
      let digits = c₂ ∷ c₃ ∷ [] in
      ap₂
        (λ lower upper. elim lower [
          | some rest ↦ rest
          | none ↦ elim upper [ some rest ↦ rest | none ↦ c₀ ∷ c₁ ∷ digits ]
        ])
        (strip_prefix-other b'0' b'x' c₀ c₁ digits e) (strip_prefix-other b'0' b'X' c₀ c₁ digits f)

  parse_hex_u16-digits :
      (d₀ d₁ d₂ d₃ : ℕ)
      → IsHexDigit c₀ d₀
      → IsHexDigit c₁ d₁
      → IsHexDigit c₂ d₂
      → IsHexDigit c₃ d₃
      → d₀ < 16
      → d₁ < 16
      → d₂ < 16
      → d₃ < 16
      → parse_hex_u16 (c₀ ∷ c₁ ∷ c₂ ∷ c₃ ∷ []) ≡ some (((d₀ * 16 + d₁) * 16 + d₂) * 16 + d₃)
  unfolding parse_hex_u16
  parse_hex_u16-digits d₀ d₁ d₂ d₃ h₀ h₁ h₂ h₃ s₀ s₁ s₂ s₃ =
      ap (λ s. from_str_radix_16 (without_0x s)) (trim-digits h₀.visible h₃.visible)
      ∙ (ap from_str_radix_16 (without_0x-digits h₁.no_x h₁.no_upper_x)
          ∙ (no_plus c₀ (c₁ ∷ c₂ ∷ c₃ ∷ []) h₀.no_plus
              ∙ (parse_hex_digits-cons c₀ d₀ 0 (c₁ ∷ c₂ ∷ c₃ ∷ []) h₀.value
                    (fits 0 d₀ (omega arith) s₀)
                  ∙ (parse_hex_digits-cons c₁ d₁ (0 * 16 + d₀) (c₂ ∷ c₃ ∷ []) h₁.value
                        (fits _ _ (omega (arith, s₀)) s₁)
                      ∙ (parse_hex_digits-cons c₂ d₂ ((0 * 16 + d₀) * 16 + d₁) (c₃ ∷ []) h₂.value
                            (fits _ _ (omega (arith, s₀, s₁)) s₂)
                          ∙ (parse_hex_digits-cons c₃ d₃ (((0 * 16 + d₀) * 16 + d₁) * 16 + d₂) []
                                h₃.value (fits _ _ (omega (arith, s₀, s₁, s₂)) s₃)
                              ∙ ap some (omega arith)))))))

pub parse_hex_u16-hex4 : (n : ℕ) → n < 65_536 → parse_hex_u16 (hex4 n) ≡ some n
unfolding hex4
parse_hex_u16-hex4 n small =
    parse_hex_u16-digits _ _ _ _ (n / 4096 % 16) (n / 256 % 16) (n / 16 % 16) (n % 16)
      (hex_digit-IsHexDigit _ (omega arith)) (hex_digit-IsHexDigit _ (omega arith))
      (hex_digit-IsHexDigit _ (omega arith)) (hex_digit-IsHexDigit _ (omega arith)) (omega arith)
      (omega arith) (omega arith) (omega arith)
    ∙ ap some (omega (arith, small))

parse_hex_digits-le : (s : Text) (n m : ℕ) → n ≤ 65_535 → parse_hex_digits s n ≡ some m → m ≤ 65_535
unfolding parse_hex_digits
parse_hex_digits-le [] n m small e = let same : n ≡ m = cc in subst (λ k. k ≤ 65_535) same small
parse_hex_digits-le (c ∷ s) n m small e =
    step (λ d within. parse_hex_digits-le s (n * 16 + d) m (ground arith)) (hex_value c) e
  where
    if_within :
        (b : Bool) (v : Option ℕ)
        → (b ≡ true → v ≡ some m → m ≤ 65_535)
        → (if b then v else none) ≡ some m
        → m ≤ 65_535
    if_within true v ih e = ih refl e
    if_within false v ih e = cc

    step :
        ((d : ℕ)
          → leb (n * 16 + d) 65_535 ≡ true
          → parse_hex_digits s (n * 16 + d) ≡ some m
          → m ≤ 65_535)
        → (v : Option ℕ)
        → elim v [
          | none ↦ none
          | some d ↦ if leb (n * 16 + d) 65_535 then parse_hex_digits s (n * 16 + d) else none
        ]
          ≡ some m
        → m ≤ 65_535
    step ih none e = cc
    step ih (some d) e =
        if_within (leb (n * 16 + d) 65_535) (parse_hex_digits s (n * 16 + d)) (ih d) e

nonempty_hex-le : (s : Text) (m : ℕ) → nonempty_hex s ≡ some m → m ≤ 65_535
nonempty_hex-le [] m e = cc
nonempty_hex-le (c ∷ s) m e = parse_hex_digits-le (c ∷ s) 0 m (omega arith) e

from_str_radix_16-le : (s : Text) (m : ℕ) → from_str_radix_16 s ≡ some m → m ≤ 65_535
from_str_radix_16-le [] m e = cc
from_str_radix_16-le (c ∷ s) m e = signed (c == b'+') e
  where
    signed : (b : Bool) → (if b then nonempty_hex s else nonempty_hex (c ∷ s)) ≡ some m → m ≤ 65_535
    signed true e = nonempty_hex-le s m e
    signed false e = nonempty_hex-le (c ∷ s) m e

pub parse_hex_u16-lt : (s : Text) (n : ℕ) → parse_hex_u16 s ≡ some n → n < 65_536
unfolding parse_hex_u16
parse_hex_u16-lt s n e =
    let small : n ≤ 65_535 = from_str_radix_16-le (without_0x (trim s)) n e in omega (arith, small)
