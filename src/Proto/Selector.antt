-- ===== src/Proto/Selector.antt =====
-- crates/paavo-proto/src/board.rs: reading a probe selector, and its canonical form.
pub mod Hex
pub mod Canonical
pub mod Printed
pub mod Listed
use paavo.Prelude.{
  ℕ, ◌+◌, ◌-◌, ◌*◌, ◌/◌, ◌%◌, ltb, leb, ◌==◌, ◌⊎◌, inl, inr, Bool, true, false, ◌&&◌, Option, none,
  some, List, [], ◌∷◌, if◌then◌else◌, Text, codes, trim, parse_unsigned,
}
use paavo.Proto.Board.{ProbeSelector}

-- Which part is at fault, with its text; the cause of a bad number is left out.
pub data ProbeSelectorParseError : Type 0 where
  format : ProbeSelectorParseError
  bad_vid bad_pid bad_interface : Text → ProbeSelectorParseError

-- `split_once` at a character.
unfoldable pub split_once : ℕ → Text → Text × Option Text
split_once sep [] = ([], none)
split_once sep (c ∷ s) =
    let (before, after) = split_once sep s in if c == sep then ([], some s) else (c ∷ before, after)

-- The rest of a text after a prefix.
unfoldable pub strip_prefix : Text → Text → Option Text
strip_prefix [] s = some s
strip_prefix (p ∷ ps) [] = none
strip_prefix (p ∷ ps) (c ∷ s) = let rest = strip_prefix ps s in if p == c then rest else none

abbrev prepend : ℕ → Text × Text → Text × Text
prepend c (before, after) = (c ∷ before, after)

-- What stands before and after the last occurrence: `rfind` and the two slices.
unfoldable pub rsplit_once : Text → Text → Option (Text × Text)
unfolding strip_prefix
rsplit_once pat [] = elim (strip_prefix pat []) [ none ↦ none | some after ↦ some ([], after) ]
rsplit_once pat (c ∷ s) = elim (rsplit_once pat s) [
  | some parts ↦ some (prepend c parts)
  | none ↦ elim (strip_prefix pat (c ∷ s)) [ none ↦ none | some after ↦ some ([], after) ]
]

abbrev without_kind : Text → Option (Text × Text) → Text
without_kind after none = after
without_kind after (some (before, kind)) = trim before

abbrev token_of : Text → Option (Text × Text) → Text
token_of s none = s
token_of s (some (before, after)) =
    without_kind (trim after) (rsplit_once (codes " (") (trim after))

unfoldable pub extract_selector_token : Text → Text
unfolding trim rsplit_once
extract_selector_token input = token_of (trim input) (rsplit_once (codes " -- ") (trim input))

unfoldable pub hex_value : ℕ → Option ℕ
hex_value c =
    if leb b'0' c && leb c b'9'
    then some (c - b'0')
    else if leb b'a' c && leb c b'f'
    then some (c - b'a' + 10)
    else if leb b'A' c && leb c b'F'
    then some (c - b'A' + 10)
    else none

unfoldable pub parse_hex_digits : Text → ℕ → Option ℕ
unfolding hex_value
parse_hex_digits [] n = some n
parse_hex_digits (c ∷ s) n = elim (hex_value c) [
  | none ↦ none
  | some d ↦ if leb (n * 16 + d) 65_535 then parse_hex_digits s (n * 16 + d) else none
]

abbrev pub nonempty_hex : Text → Option ℕ
nonempty_hex [] = none
nonempty_hex (c ∷ s) = parse_hex_digits (c ∷ s) 0

-- `u16::from_str_radix(_, 16)`, which takes a plus sign.
abbrev pub from_str_radix_16 : Text → Option ℕ
from_str_radix_16 [] = none
from_str_radix_16 (c ∷ s) = if c == b'+' then nonempty_hex s else nonempty_hex (c ∷ s)

abbrev pub without_0x : Text → Text
without_0x s = elim (strip_prefix (codes "0x") s) [
  | some rest ↦ rest
  | none ↦ elim (strip_prefix (codes "0X") s) [ some rest ↦ rest | none ↦ s ]
]

unfoldable pub parse_hex_u16 : Text → Option ℕ
unfolding trim strip_prefix parse_hex_digits
parse_hex_u16 s = from_str_radix_16 (without_0x (trim s))

abbrev pub hex_digit : ℕ → ℕ
hex_digit d = if ltb d 10 then b'0' + d else b'a' + d - 10

-- `format!("{n:04x}")` of a `u16`
unfoldable pub hex4 : ℕ → Text
hex4 n =
    hex_digit (n / 4096 % 16)
    ∷ hex_digit (n / 256 % 16)
    ∷ hex_digit (n / 16 % 16)
    ∷ hex_digit (n % 16)
    ∷ []

abbrev pub Parsed : Type 0 → Type 0
Parsed A = ProbeSelectorParseError ⊎ A

abbrev pub or_fail : {A : Type 0} → ProbeSelectorParseError → Option A → Parsed A
or_fail e none = inl e
or_fail e (some a) = inr a

infixl 5 ◌>>=◌
abbrev pub ◌>>=◌ : {A B : Type 0} → Parsed A → (A → Parsed B) → Parsed B
◌>>=◌ (inl e) f = inl e
◌>>=◌ (inr a) f = f a

unfoldable pub validate : ProbeSelector → Parsed (Unit {0})
unfolding parse_hex_u16
validate sel = do
  vid ← or_fail (bad_vid sel.vid) (parse_hex_u16 sel.vid)
  pid ← or_fail (bad_pid sel.pid) (parse_hex_u16 sel.pid)
  inr tt

unfoldable pub canonicalize : ProbeSelector → Parsed ProbeSelector
unfolding parse_hex_u16 hex4
canonicalize sel = do
  vid ← or_fail (bad_vid sel.vid) (parse_hex_u16 sel.vid)
  pid ← or_fail (bad_pid sel.pid) (parse_hex_u16 sel.pid)
  inr (record sel { vid = hex4 vid; pid = hex4 pid })

-- The interface behind the dash, where an empty one is none.
abbrev pub interface_of : Text → Parsed (Option ℕ)
interface_of [] = inr none
interface_of (c ∷ s) =
    or_fail (bad_interface (c ∷ s))
      (elim (parse_unsigned 255 (c ∷ s)) [ none ↦ none | some n ↦ some (some n) ])

abbrev pub pid_and_interface : Text × Option Text → Parsed (Text × Option ℕ)
pid_and_interface (pid_field, none) = inr (pid_field, none)
pid_and_interface (pid, some iface) = do
  interface ← interface_of (trim iface)
  inr (trim pid, interface)

abbrev pub or_empty : Option Text → Text
or_empty none = []
or_empty (some s) = s

abbrev pub is_empty : Text → Bool
is_empty [] = true
is_empty (c ∷ s) = false

abbrev pub checked : Text → Text × Option ℕ → Text → Parsed ProbeSelector
checked vid_raw (pid_raw, interface) serial =
    if (if is_empty vid_raw then true else is_empty pid_raw) then inl format else do
      vid ← or_fail (bad_vid vid_raw) (parse_hex_u16 vid_raw)
      pid ← or_fail (bad_pid pid_raw) (parse_hex_u16 pid_raw)
      inr (record { vid = hex4 vid; pid = hex4 pid; serial = serial; interface = interface })

abbrev pub parse_fields : Text → Text × Option Text → Parsed ProbeSelector
parse_fields vid_field (pid_field, serial) = do
  parts ← pid_and_interface (split_once b'-' (trim pid_field))
  checked (trim vid_field) parts (or_empty serial)

-- `VID:PID[-IFACE][:SERIAL]`, where the serial may hold further colons.
abbrev pub parse_token : Text × Option Text → Parsed ProbeSelector
parse_token (vid_field, none) = inl format
parse_token (vid_field, some rest) = parse_fields vid_field (split_once b':' rest)

unfoldable pub parse : Text → Parsed ProbeSelector
unfolding extract_selector_token split_once parse_hex_u16 hex4 parse_unsigned trim
parse input = parse_token (split_once b':' (extract_selector_token input))
