-- ===== src/Proto/Selector/Canonical.antt =====
-- The canonical form of a probe selector: crates/paavo-proto/src/board.rs.
use mathlib.Core.Path.{ap₂}
use paavo.Prelude.{
  ℕ, ◌<◌, ◌≡◌, refl, sym, subst, ◌∙◌, ◌⊎◌, inl, inr, Bool, true, false, Option, none, some,
  if◌then◌else◌, Text, trim,
}
use paavo.Proto.Board.{ProbeSelector}
use paavo.Proto.Selector.Hex.{parse_hex_u16-hex4, parse_hex_u16-lt}
use paavo.Proto.Selector.{
  format, split_once, extract_selector_token, or_empty, is_empty, ProbeSelectorParseError, bad_vid,
  bad_pid, ◌>>=◌, hex4, parse_hex_u16, or_fail, canonicalize, validate, parse, parse_token,
  parse_fields, pid_and_interface, checked, Parsed,
}

-- Vendor and product are four lower case hexadecimal digits.
abbrev pub IsCanonical : ProbeSelector → Type 0
IsCanonical s =
    (vid : ℕ) × (pid : ℕ) × (vid < 65_536)
    × (pid < 65_536)
    × (s.vid ≡ hex4 vid)
    × (s.pid ≡ hex4 pid)

abbrev canonical : ProbeSelector → Option ℕ → Option ℕ → Parsed ProbeSelector
canonical sel v p = do
  vid ← or_fail (bad_vid sel.vid) v
  pid ← or_fail (bad_pid sel.pid) p
  inr (record sel { vid = hex4 vid; pid = hex4 pid })

-- A canonical selector is its own canonical form.
abbrev pub IsFixed : ProbeSelector → Type 0
IsFixed s = (canonicalize s ≡ inr s) × (validate s ≡ inr tt) × IsCanonical s

IsFixed-hex4 :
    (sel : ProbeSelector) (vid pid : ℕ)
    → vid < 65_536
    → pid < 65_536
    → IsFixed (record sel { vid = hex4 vid; pid = hex4 pid })
unfolding canonicalize validate
IsFixed-hex4 sel vid pid e f =
    let v = parse_hex_u16-hex4 vid e in
    let p = parse_hex_u16-hex4 pid f in
    (
      ap₂ (canonical (record sel { vid = hex4 vid; pid = hex4 pid })) v p,
      rw (v, p) refl,
      (vid, pid, e, f, refl, refl),
    )

-- The one form of a selector: its numbers, written as four digits each.
abbrev pub IsCanonicalOf : ProbeSelector → ProbeSelector → Type 0
IsCanonicalOf s t =
    IsFixed t
    × (parse_hex_u16 t.vid ≡ parse_hex_u16 s.vid)
    × (parse_hex_u16 t.pid ≡ parse_hex_u16 s.pid)
    × (t.serial ≡ s.serial)
    × (t.interface ≡ s.interface)

-- The fault in a selector is the first field that is no number.
abbrev pub IsFaultOf : ProbeSelector → ProbeSelectorParseError → Type 0
IsFaultOf s e =
    ((parse_hex_u16 s.vid ≡ none) × (e ≡ bad_vid s.vid))
    ⊎ ((v : ℕ) × (parse_hex_u16 s.vid ≡ some v)
        × (parse_hex_u16 s.pid ≡ none)
        × (e ≡ bad_pid s.pid))

-- Canonicalizing a selector succeeds exactly if validating does. Then the result is the four lower
-- case digits of the same vendor and product, with serial and interface kept, and is its own
-- canonical form; otherwise both answer the first of the two fields that is no number.
pub canonicalize_lem :
    (s : ProbeSelector)
    → ((t : ProbeSelector) × (canonicalize s ≡ inr t) × (validate s ≡ inr tt) × IsCanonicalOf s t)
      ⊎ ((e : ProbeSelectorParseError) × (canonicalize s ≡ inl e)
          × (validate s ≡ inl e)
          × IsFaultOf s e)
unfolding canonicalize validate
canonicalize_lem s = go (parse_hex_u16 s.vid) (parse_hex_u16 s.pid) refl refl
  where
    go :
        (v p : Option ℕ)
        → parse_hex_u16 s.vid ≡ v
        → parse_hex_u16 s.pid ≡ p
        → ((t : ProbeSelector) × (canonicalize s ≡ inr t)
            × (validate s ≡ inr tt)
            × IsCanonicalOf s t)
          ⊎ ((e : ProbeSelectorParseError) × (canonicalize s ≡ inl e)
              × (validate s ≡ inl e)
              × IsFaultOf s e)
    go none p ev ep = inr (bad_vid s.vid, rw ev refl, rw ev refl, inl (ev, refl))
    go (some v) none ev ep =
        inr (bad_pid s.pid, rw (ev, ep) refl, rw (ev, ep) refl, inr (v, ev, ep, refl))
    go (some v) (some p) ev ep =
        let low = parse_hex_u16-lt s.vid v ev in
        let high = parse_hex_u16-lt s.pid p ep in
        inl (
          record s { vid = hex4 v; pid = hex4 p },
          ap₂ (canonical s) ev ep,
          rw (ev, ep) refl,
          (
            IsFixed-hex4 s v p low high,
            parse_hex_u16-hex4 v low ∙ sym ev,
            parse_hex_u16-hex4 p high ∙ sym ep,
            refl,
            refl,
          ),
        )

checked-IsFixed :
    (vid_raw : Text) (parts : Text × Option ℕ) (serial : Text) (s : ProbeSelector)
    → checked vid_raw parts serial ≡ inr s
    → IsFixed s
checked-IsFixed vid_raw (pid_raw, interface) serial s e =
    guarded (if is_empty vid_raw then true else is_empty pid_raw) e
  where
    go :
        (v p : Option ℕ)
        → parse_hex_u16 vid_raw ≡ v
        → parse_hex_u16 pid_raw ≡ p
        → (do
          vid ← or_fail (bad_vid vid_raw) v
          pid ← or_fail (bad_pid pid_raw) p
          inr (record { vid = hex4 vid; pid = hex4 pid; serial = serial; interface = interface }))
          ≡ inr s
        → IsFixed s
    go none p ev ep e = cc
    go (some v) none ev ep e = cc
    go (some v) (some p) ev ep e =
        let same : record { vid = hex4 v; pid = hex4 p; serial = serial; interface = interface }
            ≡ s =
          cc in
        subst IsFixed same (
          IsFixed-hex4
            (record { vid = hex4 v; pid = hex4 p; serial = serial; interface = interface }) v p
            (parse_hex_u16-lt vid_raw v ev) (parse_hex_u16-lt pid_raw p ep))

    guarded :
        (b : Bool)
        → (if b then inl format else do
          vid ← or_fail (bad_vid vid_raw) (parse_hex_u16 vid_raw)
          pid ← or_fail (bad_pid pid_raw) (parse_hex_u16 pid_raw)
          inr (record { vid = hex4 vid; pid = hex4 pid; serial = serial; interface = interface }))
          ≡ inr s
        → IsFixed s
    guarded true e = cc
    guarded false e = go (parse_hex_u16 vid_raw) (parse_hex_u16 pid_raw) refl refl e

parse_fields-IsFixed :
    (vid_field : Text) (fields : Text × Option Text) (s : ProbeSelector)
    → parse_fields vid_field fields ≡ inr s
    → IsFixed s
parse_fields-IsFixed vid_field (pid_field, serial) s e =
    go (pid_and_interface (split_once b'-' (trim pid_field))) e
  where
    go :
        (parts : Parsed (Text × Option ℕ))
        → (do parts ← parts; checked (trim vid_field) parts (or_empty serial)) ≡ inr s
        → IsFixed s
    go (inl fault) e = cc
    go (inr parts) e = checked-IsFixed (trim vid_field) parts (or_empty serial) s e

-- A selector that was read from a text is valid, written in four lower case digits each, and is its
-- own canonical form.
pub parse-IsFixed : (input : Text) (s : ProbeSelector) → parse input ≡ inr s → IsFixed s
unfolding parse
parse-IsFixed input s e = go (split_once b':' (extract_selector_token input)) e
  where
    go : (parts : Text × Option Text) → parse_token parts ≡ inr s → IsFixed s
    go (vid_field, none) e = cc
    go (vid_field, some rest) e = parse_fields-IsFixed vid_field (split_once b':' rest) s e
