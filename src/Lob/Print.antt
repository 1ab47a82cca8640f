-- ===== src/Lob/Print.antt =====
-- internal/lob/coder.go: `writeTo`, with what it uses of `fmt`. A string is its bytes; the model of
-- `%q` is that of strings of ASCII, and a byte above 0x7f is written as it is.
use gogotelehash.Lob.Packet.{Bytes, Header, Value, is_empty}
use gogotelehash.Lob.Parse.{Json}
use gogotelehash.Lob.Parse.Fields.{hdr_c, hdr_type, hdr_seq, hdr_ack, hdr_miss, hdr_end}
use gogotelehash.Prelude.{
  ℕ, zero, suc, ◌+◌, ◌-◌, ◌/◌, ◌%◌, Bool, true, false, not, ◌&&◌, ◌||◌, Option, none, some, List,
  [], ◌∷◌, ◌++◌, ltb, leb, ◌==◌, if◌then◌else◌,
}

-- `%d` of a number below 10 ^ fuel.
unfoldable pub print_digits : ℕ → ℕ → Bytes
print_digits zero n = []
print_digits (suc fuel) n =
    let high = print_digits fuel (n / 10) in
    if ltb n 10 then (b'0' + n) ∷ [] else high ++ (b'0' + n % 10) ∷ []

-- A uint32 has ten digits at most.
unfoldable pub print_uint32 : ℕ → Bytes
print_uint32 n = print_digits 10 n

abbrev pub hex_digit : ℕ → ℕ
hex_digit d = if ltb d 10 then b'0' + d else b'a' + (d - 10)

-- What `%q` writes for one byte.
unfoldable pub quote_byte : ℕ → Bytes
quote_byte r =
    if r == b'"' || r == b'\\'
    then b'\\' ∷ r ∷ []
    else if leb 0x20 r && not (r == 0x7f)
    then r ∷ []
    else if r == 7
    then b'\\' ∷ b'a' ∷ []
    else if r == 8
    then b'\\' ∷ b'b' ∷ []
    else if r == 12
    then b'\\' ∷ b'f' ∷ []
    else if r == b'\n'
    then b'\\' ∷ b'n' ∷ []
    else if r == 13
    then b'\\' ∷ b'r' ∷ []
    else if r == b'\t'
    then b'\\' ∷ b't' ∷ []
    else if r == 11
    then b'\\' ∷ b'v' ∷ []
    else b'\\' ∷ b'x' ∷ hex_digit (r / 16) ∷ hex_digit (r % 16) ∷ []

unfoldable pub quote_bytes : Bytes → Bytes
unfolding quote_byte
quote_bytes [] = []
quote_bytes (r ∷ s) = quote_byte r ++ quote_bytes s

-- `%q`
unfoldable pub quote : Bytes → Bytes
unfolding quote_bytes
quote s = b'"' ∷ (quote_bytes s ++ b'"' ∷ [])

-- The buffer, and the flag `first`.
pub record Writer : Type 0 where
  pub first : Bool
  pub buf : Bytes

-- The comma of all fields but the first, the key, the colon, and the value.
abbrev pub write_field : Bytes → Bytes → Writer → Writer
write_field key value w = record {
  first = false;
  buf = w.buf ++ ((if w.first then [] else b',' ∷ []) ++ (key ++ (b':' ∷ value)));
}

abbrev pub write_if : Bool → Bytes → Bytes → Writer → Writer
write_if has key value w = if has then write_field key value w else w

abbrev pub print_bool : Bool → Bytes
print_bool true = b't' ∷ b'r' ∷ b'u' ∷ b'e' ∷ []
print_bool false = b'f' ∷ b'a' ∷ b'l' ∷ b's' ∷ b'e' ∷ []

-- `for i, m := range h.Miss { … }`; the flag is `i > 0`.
unfoldable pub print_miss : Bool → List ℕ → Bytes
print_miss later [] = []
print_miss later (m ∷ l) =
    (if later then b',' ∷ [] else []) ++ (print_uint32 m ++ print_miss true l)

abbrev pub miss_value : List ℕ → Bytes
miss_value l = b'[' ∷ (print_miss false l ++ b']' ∷ [])

-- The fields that the header knows, in the order of the code.
unfoldable pub write_known : Header → Writer → Writer
write_known h w = write_if (h.has_miss && not (is_empty h.miss)) hdr_miss (miss_value h.miss) (
    write_if h.has_ack hdr_ack (print_uint32 h.ack) (
      write_if h.has_seq hdr_seq (print_uint32 h.seq) (
        write_if h.has_end hdr_end (print_bool h.end) (
          write_if h.has_type hdr_type (quote h.type)
            (write_if h.has_c hdr_c (print_uint32 h.c) w)))))

module _ (j : Json) where
  -- `for k, v := range h.Extra { … }`; `none` if a value cannot be encoded.
  unfoldable pub write_extra : List (Bytes × Value) → Writer → Option Writer
  write_extra [] w = some w
  write_extra ((k, v) ∷ m) w = elim (j.encode v) [
    | none ↦ none
    | some value ↦ write_extra m (write_field (quote k) value w)
  ]

  abbrev pub close_object : Option Writer → Option Bytes
  close_object none = none
  close_object (some w) = some (w.buf ++ b'}' ∷ [])

  unfoldable pub write_to : Header → Option Bytes
  unfolding write_known write_extra quote print_uint32
  write_to h =
      close_object (write_extra h.extra (write_known h (record { first = true; buf = b'{' ∷ [] })))
