-- ===== src/Cipher/Tests/Coding.antt =====
-- internal/lob: strings and numbers as JSON, enough of it for a handshake.
use gogotelehash.Cipher.Inner.{IsJson, IsPlain, AreTexts}
use gogotelehash.Lob.Packet.{Bytes, Value, ℤ}
use gogotelehash.Lob.Parse.{Json, parse_string, parse_uint32}
use gogotelehash.Lob.Print.{quote, print_uint32, print_digits}
use gogotelehash.Lob.RoundTrip.Extra.{line, plain_text}
use gogotelehash.Lob.RoundTrip.Number.{parse_uint32-print_uint32}
use gogotelehash.Lob.RoundTrip.Text.{parse_string-quote}
use gogotelehash.Prelude.{
  ℕ, ◌+◌, ◌-◌, ◌^◌, ◌≡◌, ◌<◌, refl, sym, ap, ◌∙◌, arith, Option, none, some, List, [], ◌∷◌, ◌++◌,
  length, take, false, zero, suc, ltb, Bool-cases, inl, inr, ◌/◌, ◌%◌, take-append, length-append,
  if◌then◌else◌, ◌==◌,
}

abbrev string_value : Option (Bytes × Bytes) → Option Value
string_value none = none
string_value (some (s, rest)) = some (Value.string s)

abbrev number_value : Option (ℕ × Bytes) → Option Value
number_value none = none
number_value (some (n, rest)) = some (Value.float64 n)

abbrev last_off : Bytes → Bytes
last_off p = take (length p - 1) p

abbrev value_of : Bytes → Option Value
value_of [] = none
value_of (c ∷ rest) =
    if c == b'"'
    then string_value (parse_string (c ∷ rest))
    else number_value (parse_uint32 (last_off (c ∷ rest) ++ b',' ∷ []))

abbrev text_of_value : Value → Option Bytes
text_of_value (Value.string s) = some (line (quote s))
text_of_value (Value.int (ℤ.pos n)) = some (line (print_uint32 n))
text_of_value _ = none

abbrev pub decimal : Json
decimal = record { unmarshal = value_of; encode = text_of_value }

abbrev pub whole : ℕ → ℤ
whole n = ℤ.pos n

value_of-quote : (s : Bytes) → IsPlain s → value_of (line (quote s)) ≡ some (Value.string s)
unfolding quote
value_of-quote s h = ap string_value (parse_string-quote s (b'\n' ∷ []) (plain_text s h))

value_of-number :
    (c : ℕ) (rest : Bytes)
    → (c == b'"') ≡ false
    → value_of (c ∷ rest) ≡ number_value (parse_uint32 (last_off (c ∷ rest) ++ b',' ∷ []))
value_of-number c rest h = rw (h) refl

last_off-line : (t : Bytes) → last_off (line t) ≡ t
last_off-line t = take-append t (b'\n' ∷ []) (omega (arith, length-append t (b'\n' ∷ [])))

-- The first character of a number is a digit.
print_digits-head :
    (fuel n : ℕ)
    → (d : ℕ) × (ds : Bytes) × (print_digits (suc fuel) n ≡ d ∷ ds) × ((d == b'"') ≡ false)
unfolding print_digits
print_digits-head zero n = elim (Bool-cases (ltb n 10)) [
  | inl small ↦ (b'0' + n, [], rw (small) refl, ground arith)
  | inr large ↦ (b'0' + n % 10, [], rw (large) refl, ground arith)
]
print_digits-head (suc fuel) n = elim (Bool-cases (ltb n 10)) [
  | inl small ↦ (b'0' + n, [], rw (small) refl, ground arith)
  | inr large ↦
      let (d, ds, e, digit) = print_digits-head fuel (n / 10) in
      (
        d,
        ds ++ (b'0' + n % 10) ∷ [],
        rw (large) (ap (λ (p : Bytes). p ++ (b'0' + n % 10) ∷ []) e),
        digit,
      )
]

value_of-print_uint32 :
    (n : ℕ) → n < 2 ^ 32 → value_of (line (print_uint32 n)) ≡ some (Value.float64 n)
unfolding print_uint32
value_of-print_uint32 n h =
    let t = print_digits 10 n in
    let (d, ds, e, digit) = print_digits-head 9 n in
    ap (λ (p : Bytes). value_of (line p)) e
    ∙ value_of-number d (ds ++ b'\n' ∷ []) digit
    ∙ ap (λ (p : Bytes). number_value (parse_uint32 (last_off (line p) ++ b',' ∷ []))) (sym e)
    ∙ ap (λ (p : Bytes). number_value (parse_uint32 (p ++ b',' ∷ []))) (last_off-line t)
    ∙ ap number_value (parse_uint32-print_uint32 n b',' [] h refl)

pub decimal-IsJson : IsJson whole decimal
decimal-IsJson = record {
  encode_string = λ s h. refl;
  decode_string = value_of-quote;
  encode_uint32 = λ n h. refl;
  float = λ n. n;
  decode_uint32 = value_of-print_uint32;
  exact = λ n h. refl;
}

-- The part of a key of cipher set 3a.
abbrev some_text : ℕ → Bytes
some_text zero = []
some_text (suc n) = b'a' ∷ some_text n

some_text-IsPlain : (n : ℕ) → IsPlain (some_text n)
some_text-IsPlain zero = tt
some_text-IsPlain (suc n) = (refl, some_text-IsPlain n)

abbrev pub base32_part : List (ℕ × Bytes)
base32_part = (26, some_text 52) ∷ []

pub base32_part-AreTexts : AreTexts base32_part
base32_part-AreTexts = record {
  parts = ((refl, tt), ((omega arith, refl), tt));
  plain = (some_text-IsPlain 52, tt);
  few = omega arith;
}
