-- ===== src/Lob/Parse.antt =====
-- internal/lob/header_coder.go: `parseHeader` and the parsers of its fields. The only error is
-- `ErrInvalidPacket`: `none`. `encoding/json` is a parameter where a value of another key is read.
pub mod Fields
use gogotelehash.Lob.Packet.{Bytes, Header, Value, is_empty}
use gogotelehash.Lob.Scan.{skip_space, parse_prefix, scan_string, scan_any_object_value}
use gogotelehash.Prelude.{
  ℕ, ◌+◌, ◌-◌, ◌*◌, ◌/◌, ◌%◌, ◌^◌, ap, Bool, true, false, not, ◌&&◌, ◌||◌, Option, none, some, [],
  ◌∷◌, ◌++◌, ltb, leb, ◌==◌, if◌then◌else◌, length, take, drop,
}

-- What the code uses of `encoding/json`: `json.Unmarshal` into an `interface{}`, and the encoder,
-- which ends each value with a newline. `none` is an error.
pub record Json : Type 0 where
  pub unmarshal : Bytes → Option Value
  pub encode : Value → Option Bytes

abbrev pub u32 : ℕ → ℕ
u32 n = n % 2 ^ 32

abbrev pub is_digit : ℕ → Bool
is_digit r = leb b'0' r && leb r b'9'

-- The loop of `parseUint32` over `p`. Where it runs off the end, `p` is what it was.
unfoldable pub uint32_loop : Bytes → ℕ → ℕ → Bytes → Option (ℕ × Bytes)
uint32_loop p idx n [] = some (n, p)
uint32_loop p idx n (r ∷ rs) =
    let rest = uint32_loop p (idx + 1) (u32 (n * 10 + (r - b'0'))) rs in
    if is_digit r then rest else if idx == 0 then none else some (n, r ∷ rs)

-- `len(p) == 0 || p[0] == ']' || p[0] == '}' || p[0] == ','`
abbrev pub ends_number : Bytes → Bool
ends_number [] = true
ends_number (r ∷ p) = r == b']' || (r == b'}' || r == b',')

abbrev pub finish_number : ℕ → Bytes → Option (ℕ × Bytes)
finish_number n p = if ends_number p then some (n, p) else none

unfoldable pub parse_uint32 : Bytes → Option (ℕ × Bytes)
parse_uint32 o =
    let p = skip_space o in
    if is_empty p
    then none
    else elim (uint32_loop p 0 0 p) [ none ↦ none | some (n, q) ↦ finish_number n (skip_space q) ]

unfoldable pub parse_bool : Bytes → Option (Bool × Bytes)
unfolding parse_prefix skip_space
parse_bool p =
    let (q, is_true) = parse_prefix (skip_space p) (b't' ∷ b'r' ∷ b'u' ∷ b'e' ∷ []) in
    let (r, is_false) = parse_prefix q (b'f' ∷ b'a' ∷ b'l' ∷ b's' ∷ b'e' ∷ []) in
    if is_true then some (true, q) else if is_false then some (false, r) else none

abbrev pub hex_value : ℕ → Option ℕ
hex_value r =
    if leb b'0' r && leb r b'9'
    then some (r - b'0')
    else if leb b'a' r && leb r b'f'
    then some (r - b'a' + 10)
    else if leb b'A' r && leb r b'F'
    then some (r - b'A' + 10)
    else none

-- `utf8.EncodeRune` on a rune below 0x10000; a surrogate becomes U+FFFD. A rune below 0x80 is the
-- code's own branch.
unfoldable pub encode_rune : ℕ → Bytes
encode_rune i =
    if ltb i 0x80
    then i ∷ []
    else if ltb i 0x800
    then (0xc0 + i / 64) ∷ (0x80 + i % 64) ∷ []
    else if leb 0xd800 i && leb i 0xdfff
    then 0xef ∷ 0xbf ∷ 0xbd ∷ []
    else (0xe0 + i / 4096) ∷ (0x80 + i / 64 % 64) ∷ (0x80 + i % 64) ∷ []

-- Where the loop of `parseString` stands: between characters, behind a backslash, or behind `\u`
-- and some digits.
pub data Escape : Type 0 where
  plain escaped : Escape
  unicode : ℕ → ℕ → Escape

abbrev pub simple_escape : ℕ → Option ℕ
simple_escape r =
    if r == b'"'
    then some b'"'
    else if r == b'\\'
    then some b'\\'
    else if r == b'/'
    then some b'/'
    else if r == b'b'
    then some 8
    else if r == b'f'
    then some 12
    else if r == b'n'
    then some b'\n'
    else if r == b'r'
    then some 13
    else if r == b't'
    then some b'\t'
    else none

abbrev pub unicode_digit : ℕ → ℕ → Option ℕ → Option (Bytes × Escape)
unicode_digit count v none = none
unicode_digit count v (some d) =
    if count + 1 == 4
    then some (encode_rune (v * 16 + d), plain)
    else some ([], unicode (count + 1) (v * 16 + d))

-- One byte: what it writes to the front of the buffer, and where the loop stands then.
unfoldable pub unescape_step : Escape → ℕ → Option (Bytes × Escape)
unfolding encode_rune
unescape_step plain r = if r == b'\\' then some ([], escaped) else some (r ∷ [], plain)
unescape_step escaped r = elim (simple_escape r) [
  | some c ↦ some (c ∷ [], plain)
  | none ↦ if r == b'u' then some ([], unicode 0 0) else none
]
unescape_step (unicode count v) r = unicode_digit count v (hex_value r)

abbrev pub after_bytes : Bytes → Option Bytes → Option Bytes
after_bytes out none = none
after_bytes out (some rest) = some (out ++ rest)

-- A string that ends behind a backslash, or inside `\u`, is refused.
unfoldable pub unescape : Escape → Bytes → Option Bytes
unfolding unescape_step
unescape plain [] = some []
unescape s [] = none
unescape s (r ∷ v) = elim (unescape_step s r) [
  | none ↦ none
  | some (out, s') ↦ after_bytes out (unescape s' v)
]

-- `v[1 : len(v)-1]`
abbrev pub inside : Bytes → Bytes
inside v = drop 1 (take (length v - 1) v)

unfoldable pub parse_string : Bytes → Option (Bytes × Bytes)
parse_string p = elim (scan_string p) [
  | none ↦ none
  | some (v, rest) ↦ elim (unescape plain (inside v)) [ none ↦ none | some s ↦ some (s, rest) ]
]
