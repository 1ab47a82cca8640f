-- ===== src/Hashname/Base32.antt =====
-- internal/util/base32util/encoding.go and trim.go: base 32 in small letters and without padding. The
-- standard encoding is the language's; it is modelled on texts without line breaks, which its decoder
-- skips, and `ToUpper` and `ToLower` on ASCII.
pub mod RoundTrip
use gogotelehash.Lob.Packet.{Bytes}
use gogotelehash.Prelude.{
  ℕ, zero, suc, Bool, true, false, Option, none, some, List, [], ◌∷◌, ◌++◌, map, ltb, leb, length,
  if◌then◌else◌, ◌==◌, ◌+◌, ◌-◌, ◌*◌, ◌/◌, ◌%◌, ◌&&◌, ◌||◌, sym, ap, not,
}

abbrev pub replicate : ℕ → ℕ → Bytes
replicate zero c = []
replicate (suc n) c = c ∷ replicate n c

-- `strings.TrimRight(s, "=")`
abbrev pub cons_trimmed : ℕ → Bytes → Bytes
cons_trimmed c [] = if c == b'=' then [] else c ∷ []
cons_trimmed c (d ∷ rest) = c ∷ d ∷ rest

unfoldable pub remove_padding : Bytes → Bytes
remove_padding [] = []
remove_padding (c ∷ rest) = cons_trimmed c (remove_padding rest)

abbrev pub padded : Bytes → Bytes
padded s = if length s % 8 == 0 then s else s ++ replicate (8 - length s % 8) b'='

unfoldable pub add_padding : Bytes → Bytes
unfolding remove_padding
add_padding s = padded (remove_padding s)

abbrev pub upper : ℕ → ℕ
upper c = if leb b'a' c && leb c b'z' then c - 32 else c

abbrev pub lower : ℕ → ℕ
lower c = if leb b'A' c && leb c b'Z' then c + 32 else c

-- Five bytes make eight groups of five bits; a shorter rest is filled up with zero bits.
unfoldable pub groups : Bytes → Bytes
groups [] = []
groups (a ∷ []) = a / 8 ∷ (a % 8 * 4) ∷ []
groups (a ∷ b ∷ []) = a / 8 ∷ (a % 8 * 4 + b / 64) ∷ (b / 2 % 32) ∷ (b % 2 * 16) ∷ []
groups (a ∷ b ∷ c ∷ []) =
    a / 8 ∷ (a % 8 * 4 + b / 64) ∷ (b / 2 % 32) ∷ (b % 2 * 16 + c / 16) ∷ (c % 16 * 2) ∷ []
groups (a ∷ b ∷ c ∷ d ∷ []) =
    a / 8
    ∷ (a % 8 * 4 + b / 64)
    ∷ (b / 2 % 32)
    ∷ (b % 2 * 16 + c / 16)
    ∷ (c % 16 * 2 + d / 128)
    ∷ (d / 4 % 32)
    ∷ (d % 4 * 8)
    ∷ []
groups (a ∷ b ∷ c ∷ d ∷ e ∷ rest) =
    a / 8
    ∷ (a % 8 * 4 + b / 64)
    ∷ (b / 2 % 32)
    ∷ (b % 2 * 16 + c / 16)
    ∷ (c % 16 * 2 + d / 128)
    ∷ (d / 4 % 32)
    ∷ (d % 4 * 8 + e / 32)
    ∷ (e % 32)
    ∷ groups rest

-- The other way; one, three or six groups make no bytes, and the bits that fill up are not looked at.
abbrev pub byte_of : ℕ → ℕ
byte_of n = n % 256

abbrev pub then_bytes : Bytes → Option Bytes → Option Bytes
then_bytes block none = none
then_bytes block (some rest) = some (block ++ rest)

unfoldable pub ungroup : Bytes → Option Bytes
ungroup [] = some []
ungroup (p ∷ []) = none
ungroup (p ∷ q ∷ []) = some (byte_of (p * 8 + q / 4) ∷ [])
ungroup (p ∷ q ∷ r ∷ []) = none
ungroup (p ∷ q ∷ r ∷ s ∷ []) =
    some (byte_of (p * 8 + q / 4) ∷ byte_of (q * 64 + r * 2 + s / 16) ∷ [])
ungroup (p ∷ q ∷ r ∷ s ∷ t ∷ []) =
    some
      (byte_of (p * 8 + q / 4) ∷ byte_of (q * 64 + r * 2 + s / 16) ∷ byte_of (s * 16 + t / 2) ∷ [])
ungroup (p ∷ q ∷ r ∷ s ∷ t ∷ u ∷ []) = none
ungroup (p ∷ q ∷ r ∷ s ∷ t ∷ u ∷ v ∷ []) = some (
    byte_of (p * 8 + q / 4)
    ∷ byte_of (q * 64 + r * 2 + s / 16)
    ∷ byte_of (s * 16 + t / 2)
    ∷ byte_of (t * 128 + u * 4 + v / 8)
    ∷ [])
ungroup (p ∷ q ∷ r ∷ s ∷ t ∷ u ∷ v ∷ w ∷ rest) =
    then_bytes
      (byte_of (p * 8 + q / 4)
        ∷ byte_of (q * 64 + r * 2 + s / 16)
        ∷ byte_of (s * 16 + t / 2)
        ∷ byte_of (t * 128 + u * 4 + v / 8)
        ∷ byte_of (v * 32 + w)
        ∷ [])
      (ungroup rest)

-- The alphabet: A to Z, 2 to 7.
abbrev pub symbol : ℕ → ℕ
symbol g = if ltb g 26 then g + 65 else g + 24

abbrev pub symbol_value : ℕ → Option ℕ
symbol_value c =
    if leb b'A' c && leb c b'Z'
    then some (c - 65)
    else if leb b'2' c && leb c b'7'
    then some (c - 24)
    else none

abbrev pub then_value : Option ℕ → Option Bytes → Option Bytes
then_value none rest = none
then_value (some g) none = none
then_value (some g) (some rest) = some (g ∷ rest)

unfoldable pub symbol_values : Bytes → Option Bytes
symbol_values [] = some []
symbol_values (c ∷ rest) = then_value (symbol_value c) (symbol_values rest)

abbrev pub ungrouped : Option Bytes → Option Bytes
ungrouped none = none
ungrouped (some gs) = ungroup gs

-- `base32.StdEncoding`: `EncodeToString`, and `DecodeString`, which wants whole blocks of eight with
-- less than seven padding characters.
unfoldable pub std_encode : Bytes → Bytes
unfolding groups
std_encode src = padded (map symbol (groups src))

unfoldable pub std_decode : Bytes → Option Bytes
unfolding remove_padding symbol_values ungroup
std_decode s =
    let symbols = remove_padding s in
    if not (length s % 8 == 0)
    then none
    else if ltb 6 (length s - length symbols)
    then none
    else ungrouped (symbol_values symbols)

unfoldable pub encode_to_string : Bytes → Bytes
unfolding remove_padding std_encode
encode_to_string src = map lower (remove_padding (std_encode src))

unfoldable pub decode_string : Bytes → Option Bytes
unfolding add_padding std_decode
decode_string s = std_decode (add_padding (map upper s))

unfoldable pub valid_string : Bytes → Bool
valid_string [] = true
valid_string (r ∷ rest) =
    let later = valid_string rest in
    if (leb b'a' r && leb r b'z') || (leb b'2' r && leb r b'7') then later else false
