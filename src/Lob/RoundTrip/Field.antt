-- ===== src/Lob/RoundTrip/Field.antt =====
-- internal/lob: one field of the header is read back: its key, the colon, and its value.
use gogotelehash.Lob.Packet.{Bytes, Header}
use gogotelehash.Lob.Scan.{parse_prefix, skip_space, after_prefix}
use gogotelehash.Lob.Parse.{Json, parse_bool}
use gogotelehash.Lob.Parse.Fields.{
  parse_key, parse_field, hdr_c, hdr_type, hdr_seq, hdr_ack, hdr_miss, hdr_end, set_uint32,
  set_miss, set_type, set_end,
}
use gogotelehash.Lob.Print.{print_uint32, print_bool, miss_value, quote}
use gogotelehash.Lob.RoundTrip.Number.{
  is_stop, parse_uint32-print_uint32, parse_miss_list-miss_value, Fits,
}
use gogotelehash.Lob.RoundTrip.Text.{is_text, parse_string-quote}
use gogotelehash.Prelude.{
  ◌==◌, ◌||◌, arith, ℕ, ◌≡◌, refl, ap, Bool, true, false, some, List, ◌∷◌, ◌++◌, All,
}

-- A field that is written: its text, and what it does to the header that is read.
pub record Entry : Type 0 where
  pub key : Bytes
  pub value : Bytes
  pub effect : Header → Header

abbrev pub text : Entry → Bytes
text e = e.key ++ (b':' ∷ e.value)

abbrev pub c_entry : ℕ → Entry
c_entry n = record {
  key = hdr_c;
  value = print_uint32 n;
  effect = λ (h : Header). record h { c = n; has_c = true };
}

abbrev pub seq_entry : ℕ → Entry
seq_entry n = record {
  key = hdr_seq;
  value = print_uint32 n;
  effect = λ (h : Header). record h { seq = n; has_seq = true };
}

abbrev pub ack_entry : ℕ → Entry
ack_entry n = record {
  key = hdr_ack;
  value = print_uint32 n;
  effect = λ (h : Header). record h { ack = n; has_ack = true };
}

abbrev pub type_entry : Bytes → Entry
type_entry s = record {
  key = hdr_type;
  value = quote s;
  effect = λ (h : Header). record h { type = s; has_type = true };
}

abbrev pub end_entry : Bool → Entry
end_entry b = record {
  key = hdr_end;
  value = print_bool b;
  effect = λ (h : Header). record h { end = b; has_end = true };
}

abbrev pub miss_entry : List ℕ → Entry
miss_entry l = record {
  key = hdr_miss;
  value = miss_value l;
  effect = λ (h : Header). record h { miss = l; has_miss = true };
}

parse_bool-print_bool :
    (b : Bool) (rest : Bytes) → parse_bool (print_bool b ++ rest) ≡ some (b, rest)
unfolding parse_bool parse_prefix skip_space after_prefix
parse_bool-print_bool true rest = refl
parse_bool-print_bool false rest = refl

-- A comma, or the end of the object.
abbrev pub ends_value : ℕ → Bool
ends_value r = r == b',' || r == b'}'

ends_value-stop : (r : ℕ) → ends_value r ≡ true → is_stop r ≡ true
ends_value-stop r h = ground arith

module _ (j : Json) where
  -- The field is read back in front of a comma or of the end of the object.
  abbrev pub Parses : Entry → Type 0
  Parses e =
      (h : Header) (r : ℕ) (rest : Bytes)
      → ends_value r ≡ true
      → parse_field j h (text e ++ r ∷ rest) ≡ some (e.effect h, r ∷ rest)

  pub c_entry-Parses : (n : ℕ) → Fits n → Parses (c_entry n)
  unfolding parse_field parse_key parse_prefix skip_space after_prefix
  c_entry-Parses n b h r rest s =
      ap (set_uint32 (λ m. record h { c = m; has_c = true }))
        (parse_uint32-print_uint32 n r rest b (ends_value-stop r s))

  pub seq_entry-Parses : (n : ℕ) → Fits n → Parses (seq_entry n)
  unfolding parse_field parse_key parse_prefix skip_space after_prefix
  seq_entry-Parses n b h r rest s =
      ap (set_uint32 (λ m. record h { seq = m; has_seq = true }))
        (parse_uint32-print_uint32 n r rest b (ends_value-stop r s))

  pub ack_entry-Parses : (n : ℕ) → Fits n → Parses (ack_entry n)
  unfolding parse_field parse_key parse_prefix skip_space after_prefix
  ack_entry-Parses n b h r rest s =
      ap (set_uint32 (λ m. record h { ack = m; has_ack = true }))
        (parse_uint32-print_uint32 n r rest b (ends_value-stop r s))

  pub type_entry-Parses : (t : Bytes) → All (λ (r : ℕ). is_text r ≡ true) t → Parses (type_entry t)
  unfolding parse_field parse_key parse_prefix skip_space after_prefix
  type_entry-Parses t ok h r rest s = ap (set_type h) (parse_string-quote t (r ∷ rest) ok)

  pub end_entry-Parses : (b : Bool) → Parses (end_entry b)
  unfolding parse_field parse_key parse_prefix skip_space after_prefix
  end_entry-Parses b h r rest s = ap (set_end h) (parse_bool-print_bool b (r ∷ rest))

  pub miss_entry-Parses : (m : ℕ) (l : List ℕ) → Fits m → All Fits l → Parses (miss_entry (m ∷ l))
  unfolding parse_field parse_key parse_prefix skip_space after_prefix
  miss_entry-Parses m l b ok h r rest s =
      ap (set_miss h) (parse_miss_list-miss_value m l (r ∷ rest) b ok)
