-- ===== src/Lob/RoundTrip/Extra.antt =====
-- internal/lob: a field that the header does not know is read back.
use gogotelehash.Lob.Packet.{Bytes, Header, Value}
use gogotelehash.Lob.Parse.{Json, parse_string}
use gogotelehash.Lob.Parse.Fields.{
  parse_key, parse_field, parse_value, parse_colon, set_other, set_extra, other, hdr_c, hdr_seq,
  hdr_ack, hdr_miss, hdr_type, hdr_end,
}
use gogotelehash.Lob.Print.{quote, quote_bytes, quote_byte}
use gogotelehash.Lob.RoundTrip.Field.{Entry, Parses, ends_value}
use gogotelehash.Lob.RoundTrip.Prefix.{parse_prefix_hit, skip_space-id}
use gogotelehash.Lob.RoundTrip.Text.{
  is_text, parse_string-quote, string_end-quote_bytes, scan_string_idx-quoted, drop-middle,
}
use gogotelehash.Lob.Scan.{
  parse_prefix, skip_space, after_prefix, scan_value_from, scan_any_object_value, scan_string_idx,
}
use mathlib.Core.List.{append_assoc}
use gogotelehash.Prelude.{
  ℕ, zero, suc, ◌+◌, ◌≡◌, ◌<◌, refl, sym, ap, ◌∙◌, arith, Bool, true, false, ◌&&◌, ◌||◌, none, some,
  [], ◌∷◌, ◌++◌, All, leb, ◌==◌, length, drop, take-append, length-append,
}

-- A digit or a small letter: what the keys and texts of parts are made of.
abbrev pub is_plain : ℕ → Bool
is_plain r = (leb b'0' r && leb r b'9') || (leb b'a' r && leb r b'z')

pub plain_text :
    (s : Bytes) → All (λ (r : ℕ). is_plain r ≡ true) s → All (λ (r : ℕ). is_text r ≡ true) s
plain_text [] h = tt
plain_text (r ∷ s) (hr, h) = (ground (arith, hr), plain_text s h)

pub quote_byte_plain : (r : ℕ) → is_plain r ≡ true → quote_byte r ≡ r ∷ []
unfolding quote_byte
quote_byte_plain r h = ground arith

pub quote_pair :
    (a b : ℕ)
    → is_plain a ≡ true
    → is_plain b ≡ true
    → quote (a ∷ b ∷ []) ≡ b'"' ∷ a ∷ b ∷ b'"' ∷ []
unfolding quote quote_bytes
quote_pair a b ha hb = rw (quote_byte_plain a ha, quote_byte_plain b hb) refl

-- A prefix that is not there.
prefix_miss :
    (p pre : Bytes) → skip_space p ≡ p → after_prefix p pre ≡ none → parse_prefix p pre ≡ (p, false)
unfolding parse_prefix
prefix_miss p pre s m = grind (arith, s, m)

-- A key of two plain characters is none of those that the header knows.
parse_key-pair :
    (a b : ℕ) (rest : Bytes)
    → is_plain a ≡ true
    → is_plain b ≡ true
    → parse_key (quote (a ∷ b ∷ []) ++ rest) ≡ some (other (a ∷ b ∷ []), rest)
unfolding parse_key after_prefix
parse_key-pair a b rest ha hb =
    let k = quote_pair a b ha hb in
    let p : Bytes = b'"' ∷ a ∷ b ∷ b'"' ∷ rest in
    let s : skip_space p ≡ p = skip_space-id b'"' (a ∷ b ∷ b'"' ∷ rest) refl in
    let read : parse_string p ≡ some (a ∷ b ∷ [], rest) =
      ap (λ (q : Bytes). parse_string (q ++ rest)) (sym k)
      ∙ parse_string-quote (a ∷ b ∷ []) rest (plain_text (a ∷ b ∷ []) (ha, (hb, tt))) in
    let m1 = prefix_miss p hdr_c s (ground (arith, ha, hb)) in
    let m2 = prefix_miss p hdr_seq s (ground (arith, ha, hb)) in
    let m3 = prefix_miss p hdr_ack s (ground (arith, ha, hb)) in
    let m4 = prefix_miss p hdr_miss s (ground (arith, ha, hb)) in
    let m5 = prefix_miss p hdr_type s (ground (arith, ha, hb)) in
    let m6 = prefix_miss p hdr_end s (ground (arith, ha, hb)) in
    ap (λ (q : Bytes). parse_key (q ++ rest)) k ∙ rw (m1, m2, m3, m4, m5, m6, read) refl

-- The bytes of a value are found, in front of a comma or of the end of the object.
abbrev pub IsScanned : Bytes → Type 0
IsScanned v =
    (r : ℕ) (rest : Bytes)
    → ends_value r ≡ true
    → scan_any_object_value (v ++ r ∷ rest) ≡ some (v, r ∷ rest)

-- A digit, or the newline that the encoder puts behind a value.
abbrev pub is_bare : ℕ → Bool
is_bare r = (leb b'0' r && leb r b'9') || r == b'\n'

scan_value_from-digits :
    (fuel idx : ℕ) (ds : Bytes) (r : ℕ) (rest : Bytes)
    → length ds < fuel
    → All (λ (d : ℕ). is_bare d ≡ true) ds
    → ends_value r ≡ true
    → scan_value_from fuel idx (ds ++ r ∷ rest) ≡ some (idx + length ds, r ∷ rest)
unfolding scan_value_from
scan_value_from-digits zero idx ds r rest f h s = absurd (omega arith)
scan_value_from-digits (suc fuel) idx [] r rest f h s = ground (arith, s)
scan_value_from-digits (suc fuel) idx (d ∷ ds) r rest f (hd, h) s =
    let more = scan_value_from-digits fuel (idx + 1) ds r rest (omega arith) h s in
    ground (arith, hd, more)

scan_any-from :
    (v : Bytes) (r : ℕ) (rest : Bytes)
    → scan_value_from (suc (length (v ++ r ∷ rest))) 0 (v ++ r ∷ rest) ≡ some (length v, r ∷ rest)
    → scan_any_object_value (v ++ r ∷ rest) ≡ some (v, r ∷ rest)
unfolding scan_any_object_value
scan_any-from v r rest e = let front = take-append v (r ∷ rest) refl in grind (arith, e, front)

pub digits-IsScanned : (ds : Bytes) → All (λ (d : ℕ). is_bare d ≡ true) ds → IsScanned ds
digits-IsScanned ds h r rest s = scan_any-from ds r rest (
    scan_value_from-digits (suc (length (ds ++ r ∷ rest))) 0 ds r rest
      (omega (arith, length-append ds (r ∷ rest))) h s
    ∙ ap (λ (n : ℕ). some (n, r ∷ rest)) (omega arith))

string_step :
    (fuel e : ℕ) (p : Bytes)
    → scan_string_idx (b'"' ∷ p) ≡ some (0, e)
    → scan_value_from (suc fuel) 0 (b'"' ∷ p) ≡ scan_value_from fuel e (drop e (b'"' ∷ p))
unfolding scan_value_from
string_step fuel e p h = let sum : 0 + e ≡ e = omega arith in grind (arith, h, sum)

-- A value as the encoder writes it.
abbrev pub line : Bytes → Bytes
line t = t ++ b'\n' ∷ []

pub quote-IsScanned : (s : Bytes) → All (λ (r : ℕ). is_text r ≡ true) s → IsScanned (line (quote s))
unfolding quote
quote-IsScanned s h r rest stops =
    let q = quote_bytes s in
    let behind = b'\n' ∷ r ∷ rest in
    let p = q ++ b'"' ∷ behind in
    let v = line (b'"' ∷ (q ++ b'"' ∷ [])) in
    let whole : v ++ r ∷ rest ≡ b'"' ∷ p =
      ap (λ (t : Bytes). b'"' ∷ t)
        (append_assoc (q ++ b'"' ∷ []) (b'\n' ∷ []) (r ∷ rest)
          ∙ append_assoc q (b'"' ∷ []) behind) in
    let end : scan_string_idx (b'"' ∷ p) ≡ some (0, suc (1 + length q)) =
      scan_string_idx-quoted p (1 + length q) (string_end-quote_bytes s 1 behind h) in
    let e = suc (1 + length q) in
    let size : e + 1 ≡ length v =
      omega (arith, length-append (q ++ b'"' ∷ []) (b'\n' ∷ []), length-append q (b'"' ∷ [])) in
    let one : 1 + length q ≡ suc (length q) = omega arith in
    let left : drop e (b'"' ∷ p) ≡ behind =
      ap (λ (n : ℕ). drop n p) one ∙ drop-middle q behind b'"' in
    let n = length (v ++ r ∷ rest) in
    scan_any-from v r rest (
      ap (scan_value_from (suc n) 0) whole
      ∙ string_step n e p end
      ∙ ap (scan_value_from n e) left
      ∙ scan_value_from-digits n e (b'\n' ∷ []) r rest
          (omega (arith, length-append v (r ∷ rest), size)) (refl, tt) stops
      ∙ ap (λ (m : ℕ). some (m, r ∷ rest)) size)

-- A field with a key of two plain characters.
abbrev pub extra_entry : ℕ → ℕ → Bytes → Value → Entry
extra_entry a b v x = record {
  key = quote (a ∷ b ∷ []);
  value = v;
  effect = λ (h : Header). record h { extra = set_extra (a ∷ b ∷ []) x h.extra };
}

module _ (j : Json) where
  set_other-read :
      (h : Header) (key v : Bytes) (x : Value) (q : Bytes)
      → j.unmarshal v ≡ some x
      → set_other j h key (some (v, q)) ≡ some (record h { extra = set_extra key x h.extra }, q)
  set_other-read h key v x q e = grind (arith, e)

  parse_colon-other :
      (h : Header) (key p : Bytes)
      → parse_colon j h (some (other key, b':' ∷ p)) ≡ set_other j h key (scan_any_object_value p)
  unfolding parse_value
  parse_colon-other h key p = rw (parse_prefix_hit b':' p refl) refl

  pub extra_entry-Parses :
      (a b : ℕ) (v : Bytes) (x : Value)
      → is_plain a ≡ true
      → is_plain b ≡ true
      → IsScanned v
      → j.unmarshal v ≡ some x
      → Parses j (extra_entry a b v x)
  unfolding parse_field
  extra_entry-Parses a b v x ha hb scanned e h r rest s =
      let k = a ∷ b ∷ [] in
      ap (λ (p : Bytes). parse_colon j h (parse_key p))
        (append_assoc (quote k) (b':' ∷ v) (r ∷ rest))
      ∙ ap (parse_colon j h) (parse_key-pair a b (b':' ∷ (v ++ r ∷ rest)) ha hb)
      ∙ parse_colon-other h k (v ++ r ∷ rest)
      ∙ ap (set_other j h k) (scanned r rest s)
      ∙ set_other-read h k v x (r ∷ rest) e
