-- ===== src/Hashname/Tests.antt =====
-- internal/hashname/hashname.go, internal/util/base32util: runs, and the theorems at concrete inputs.
use gogotelehash.Hashname.Base32.{encode_to_string, decode_string, valid_string, replicate}
use gogotelehash.Hashname.Base32.RoundTrip.{decode_string-encode_to_string}
use gogotelehash.Hashname.Derive.{
  Derived, ok, valid, from_intermediates, parts_from_keys, from_keys, from_key_and_intermediates,
}
use gogotelehash.Hashname.Laws.{from_intermediates-same}
use gogotelehash.Hashname.Keys.{IsHash, from_key_and_intermediates-from_keys, from_keys-valid}
use gogotelehash.Lob.Packet.{Bytes}
use gogotelehash.Prelude.Map.{lookup, erase}
use gogotelehash.Prelude.{
  ℕ, zero, suc, ◌+◌, ◌*◌, ◌/◌, ◌%◌, ◌<◌, ◌≡◌, refl, ◌≢◌, Bool, true, false, none, some, List, [],
  ◌∷◌, arith, length, All,
}

-- "foobar" and its text, "mzxw6ytboi".
abbrev foobar : Bytes
foobar = 102 ∷ 111 ∷ 111 ∷ 98 ∷ 97 ∷ 114 ∷ []

abbrev foobar_text : Bytes
foobar_text = b'm' ∷ b'z' ∷ b'x' ∷ b'w' ∷ b'6' ∷ b'y' ∷ b't' ∷ b'b' ∷ b'o' ∷ b'i' ∷ []

foobar_encodes : encode_to_string foobar ≡ foobar_text
unfolding encode_to_string
foobar_encodes = refl

foobar_decodes : decode_string foobar_text ≡ some foobar
unfolding decode_string
foobar_decodes = refl

-- One symbol is no text, and neither is a digit out of range.
odd_text : decode_string (b'm' ∷ []) ≡ none
unfolding decode_string
odd_text = refl

bad_digit : decode_string (b'm' ∷ b'1' ∷ []) ≡ none
unfolding decode_string
bad_digit = refl

decode_string-encode_to_string_example :
    (decode_string (encode_to_string foobar) ≡ some foobar)
    × (valid_string (encode_to_string foobar) ≡ true)
    × (length (encode_to_string foobar) ≡ (length foobar * 8 + 4) / 5)
decode_string-encode_to_string_example = decode_string-encode_to_string foobar (omega arith)

-- A hash that keeps the length and the first byte.
abbrev first_of : Bytes → ℕ
first_of [] = 0
first_of (b ∷ rest) = b % 256

abbrev short_hash : Bytes → Bytes
short_hash l = (length l % 256) ∷ first_of l ∷ replicate 30 0

first_of_bound : (l : Bytes) → first_of l < 256
first_of_bound [] = omega arith
first_of_bound (b ∷ rest) = omega arith

replicate_zero : (n : ℕ) → All (λ b. b < 256) (replicate n 0)
replicate_zero zero = tt
replicate_zero (suc n) = (omega arith, replicate_zero n)

short_hash-IsHash : IsHash short_hash
short_hash-IsHash = record {
  size = λ l. refl;
  bytes = λ l. (omega arith, (first_of_bound l, replicate_zero 30));
}

abbrev two_keys : List (ℕ × Bytes)
two_keys = (0x1a, 1 ∷ 2 ∷ []) ∷ (0x3a, 3 ∷ []) ∷ []

-- Two maps of raw texts that differ in their order only.
abbrev text_a : Bytes
text_a = replicate 52 b'a'

abbrev text_b : Bytes
text_b = replicate 52 b'b'

abbrev one_order : List (ℕ × Bytes)
one_order = (0x1a, text_a) ∷ (0x3a, text_b) ∷ []

abbrev other_order : List (ℕ × Bytes)
other_order = (0x3a, text_b) ∷ (0x1a, text_a) ∷ []

same_values : (k : ℕ) → lookup k one_order ≡ lookup k other_order
same_values k = ground arith

from_intermediates-same_example :
    from_intermediates short_hash one_order ≡ from_intermediates short_hash other_order
from_intermediates-same_example =
    from_intermediates-same short_hash one_order other_order (refl, (refl, tt)) (refl, (refl, tt))
      same_values

abbrev valid_of : Derived → Bool
valid_of (ok h) = valid h
valid_of _ = false

one_order_derives : valid_of (from_intermediates short_hash one_order) ≡ true
unfolding from_intermediates valid decode_string encode_to_string
one_order_derives = refl

from_key_and_intermediates-from_keys_example :
    from_key_and_intermediates short_hash 0x3a
      (3 ∷ [])
      (parts_from_keys short_hash (erase 0x3a two_keys))
    ≡ from_keys short_hash two_keys
from_key_and_intermediates-from_keys_example =
    from_key_and_intermediates-from_keys short_hash short_hash-IsHash 0x3a (3 ∷ []) two_keys refl

two_keys-ne-nil : two_keys ≢ []
two_keys-ne-nil h = cc

from_keys-valid_example : (h : Bytes) × (from_keys short_hash two_keys ≡ ok h) × (valid h ≡ true)
from_keys-valid_example = from_keys-valid short_hash two_keys short_hash-IsHash two_keys-ne-nil
