-- ===== src/Lob/Parse/Fields.antt =====
-- internal/lob/header_coder.go: the parser of each field, and `parseHeader`.
use gogotelehash.Lob.Packet.{Bytes, Header, Value, is_empty}
use gogotelehash.Lob.Scan.{parse_prefix, scan_any_object_value}
use gogotelehash.Lob.Parse.{Json, parse_uint32, parse_bool, parse_string}
use gogotelehash.Prelude.{
  ℕ, zero, suc, Bool, true, false, ◌&&◌, Option, none, some, List, [], ◌∷◌, ◌++◌, ◌==◌,
  if◌then◌else◌, length,
}

-- Equality of byte strings.
unfoldable pub bytes_eq : Bytes → Bytes → Bool
bytes_eq [] [] = true
bytes_eq (x ∷ a) (y ∷ b) = x == y && bytes_eq a b
bytes_eq _ _ = false

-- `hdr.Extra[key] = x`
unfoldable pub set_extra : Bytes → Value → List (Bytes × Value) → List (Bytes × Value)
unfolding bytes_eq
set_extra key x [] = (key, x) ∷ []
set_extra key x ((k, v) ∷ m) = if bytes_eq k key then (key, x) ∷ m else (k, v) ∷ set_extra key x m

-- The names of the fields that the header knows.
pub data Key : Type 0 where
  c seq ack miss type end : Key
  other : Bytes → Key

abbrev pub hdr_c : Bytes
hdr_c = b'"' ∷ b'c' ∷ b'"' ∷ []

abbrev pub hdr_type : Bytes
hdr_type = b'"' ∷ b't' ∷ b'y' ∷ b'p' ∷ b'e' ∷ b'"' ∷ []

abbrev pub hdr_seq : Bytes
hdr_seq = b'"' ∷ b's' ∷ b'e' ∷ b'q' ∷ b'"' ∷ []

abbrev pub hdr_ack : Bytes
hdr_ack = b'"' ∷ b'a' ∷ b'c' ∷ b'k' ∷ b'"' ∷ []

abbrev pub hdr_miss : Bytes
hdr_miss = b'"' ∷ b'm' ∷ b'i' ∷ b's' ∷ b's' ∷ b'"' ∷ []

abbrev pub hdr_end : Bytes
hdr_end = b'"' ∷ b'e' ∷ b'n' ∷ b'd' ∷ b'"' ∷ []

abbrev pub other_key : Option (Bytes × Bytes) → Option (Key × Bytes)
other_key none = none
other_key (some (key, p)) = some (other key, p)

-- The ladder of prefixes: each attempt goes on where the one before left the slice.
unfoldable pub parse_key : Bytes → Option (Key × Bytes)
parse_key p0 =
    let p1 = parse_prefix p0 hdr_c in
    let p2 = parse_prefix p1.0 hdr_seq in
    let p3 = parse_prefix p2.0 hdr_ack in
    let p4 = parse_prefix p3.0 hdr_miss in
    let p5 = parse_prefix p4.0 hdr_type in
    let p6 = parse_prefix p5.0 hdr_end in
    if p1.1
    then some (c, p1.0)
    else if p2.1
    then some (seq, p2.0)
    else if p3.1
    then some (ack, p3.0)
    else if p4.1
    then some (miss, p4.0)
    else if p5.1
    then some (type, p5.0)
    else if p6.1
    then some (end, p6.0)
    else other_key (parse_string p6.0)

-- The loop of `parseMiss`: each round takes a byte at least, so that a fuel above the length of `p`
-- is enough.
unfoldable pub miss_loop : ℕ → List ℕ → Bytes → Option (List ℕ × Bytes)
miss_loop zero l p = none
miss_loop (suc fuel) l p = elim (parse_uint32 p) [
  | none ↦ none
  | some (n, q) ↦
      let r = parse_prefix q (b',' ∷ []) in
      let s = parse_prefix r.0 (b']' ∷ []) in
      let more = miss_loop fuel (l ++ n ∷ []) r.0 in
      let last : Option (List ℕ × Bytes) = if s.1 then some (l ++ n ∷ [], s.0) else none in
      if is_empty p then none else if r.1 then more else last
]

unfoldable pub parse_miss_list : Bytes → Option (List ℕ × Bytes)
unfolding miss_loop
parse_miss_list p =
    let r = parse_prefix p (b'[' ∷ []) in
    let rest = miss_loop (suc (length r.0)) [] r.0 in if r.1 then rest else none

abbrev pub set_uint32 : (ℕ → Header) → Option (ℕ × Bytes) → Option (Header × Bytes)
set_uint32 f none = none
set_uint32 f (some (n, p)) = some (f n, p)

abbrev pub set_miss : Header → Option (List ℕ × Bytes) → Option (Header × Bytes)
set_miss h none = none
set_miss h (some (l, p)) = some (record h { miss = l; has_miss = true }, p)

abbrev pub set_type : Header → Option (Bytes × Bytes) → Option (Header × Bytes)
set_type h none = none
set_type h (some (s, p)) = some (record h { type = s; has_type = true }, p)

abbrev pub set_end : Header → Option (Bool × Bytes) → Option (Header × Bytes)
set_end h none = none
set_end h (some (b, p)) = some (record h { end = b; has_end = true }, p)

module _ (j : Json) where
  -- `json.Unmarshal(v, &x)`, and the entry that it makes.
  abbrev pub set_other : Header → Bytes → Option (Bytes × Bytes) → Option (Header × Bytes)
  set_other h key none = none
  set_other h key (some (v, p)) = elim (j.unmarshal v) [
    | none ↦ none
    | some x ↦ some (record h { extra = set_extra key x h.extra }, p)
  ]

  -- The function `f` that the key has chosen.
  unfoldable pub parse_value : Key → Header → Bytes → Option (Header × Bytes)
  parse_value c h p = set_uint32 (λ n. record h { c = n; has_c = true }) (parse_uint32 p)
  parse_value seq h p = set_uint32 (λ n. record h { seq = n; has_seq = true }) (parse_uint32 p)
  parse_value ack h p = set_uint32 (λ n. record h { ack = n; has_ack = true }) (parse_uint32 p)
  parse_value miss h p = set_miss h (parse_miss_list p)
  parse_value type h p = set_type h (parse_string p)
  parse_value end h p = set_end h (parse_bool p)
  parse_value (other key) h p = set_other h key (scan_any_object_value p)

  abbrev pub parse_colon : Header → Option (Key × Bytes) → Option (Header × Bytes)
  parse_colon h none = none
  parse_colon h (some (key, p)) =
      let r = parse_prefix p (b':' ∷ []) in if r.1 then parse_value key h r.0 else none

  -- One round of `parseHeader`, up to the value.
  unfoldable pub parse_field : Header → Bytes → Option (Header × Bytes)
  unfolding parse_value
  parse_field h p = parse_colon h (parse_key p)

  -- The rounds: each takes a byte at least, so that a fuel above the length of `p` is enough. What
  -- follows the closing brace is not looked at.
  unfoldable pub header_loop : ℕ → Header → Bytes → Option Header
  header_loop zero h p = none
  header_loop (suc fuel) h p = elim (parse_field h p) [
    | none ↦ none
    | some (h', q) ↦
        let r = parse_prefix q (b',' ∷ []) in
        let s = parse_prefix r.0 (b'}' ∷ []) in
        let more = header_loop fuel h' r.0 in if r.1 then more else if s.1 then some h' else none
  ]

  unfoldable pub parse_header : Header → Bytes → Option Header
  unfolding header_loop parse_field
  parse_header h p =
      let r = parse_prefix p (b'{' ∷ []) in
      let rest = header_loop (suc (length r.0)) h r.0 in if r.1 then rest else none
