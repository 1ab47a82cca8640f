-- ===== src/Cipher/Inner.antt =====
-- e3x/cipherset/cs1a and cs3a, with internal/lob: the packet inside a handshake is encoded and decoded.
use gogotelehash.Cipher.Answer.{delete_extra, at_key}
use gogotelehash.Cipher.Parts.{parts_from_header, apply_to_header, hex_id, hex_digit}
use gogotelehash.Cipher.Parts.Laws.{
  AreParts, written, NotIn, set_extra-new, no_keys, apply_to_header-extra,
  parts_from_header-apply_to_header,
}
use gogotelehash.Lob.Coder
use gogotelehash.Lob.Coder.{encode, decode}
use gogotelehash.Lob.Extra.{
  get_uint32, get_int, set, set_int, set_uint32, set_string, as_int, to_uint32, get-set_same,
}
use gogotelehash.Lob.Packet.{Bytes, Header, Packet, Value, ℤ, empty_header, is_empty}
use gogotelehash.Lob.Parse.{Json}
use gogotelehash.Lob.Parse.Fields.{bytes_eq, set_extra}
use gogotelehash.Lob.Print.{quote, quote_bytes, print_uint32, print_digits}
use gogotelehash.Lob.RoundTrip.Extra.{
  line, is_plain, is_bare, digits-IsScanned, quote-IsScanned, plain_text, quote_byte_plain,
  quote_pair,
}
use gogotelehash.Lob.RoundTrip.Extras as Extras
use gogotelehash.Lob.RoundTrip.Extras.{
  Extra, IsExtra, entries_of, sent_of, unknown, decode-encode_some,
}
use gogotelehash.Lob.RoundTrip.Object.{joined, later, apply_entries}
use gogotelehash.Prelude.Map.{lookup}
use gogotelehash.Prelude.{
  ℕ, zero, suc, ◌+◌, ◌*◌, ◌^◌, ◌%◌, ◌/◌, ◌≡◌, ◌≤◌, ◌<◌, refl, sym, ap, ◌∙◌, arith, true, false,
  some, List, [], ◌∷◌, ◌++◌, All, All-append, ◌==◌, length, length-append, ltb, if_intro,
}

abbrev pub IsPlain : Bytes → Type 0
IsPlain s = All (λ (r : ℕ). is_plain r ≡ true) s

-- What the handshakes rely on of encoding/json: a string of digits and small letters is written as it is
-- in quotes, and a uint32 in decimal, which a float64 represents, both with a newline behind; both are
-- read back.
pub record IsJson (truncate : ℕ → ℤ) (j : Json) : Type 0 where
  pub encode_string : (s : Bytes) → IsPlain s → j.encode (Value.string s) ≡ some (line (quote s))
  pub decode_string : (s : Bytes) → IsPlain s → j.unmarshal (line (quote s)) ≡ some (Value.string s)
  pub encode_uint32 :
      (n : ℕ) → n < 2 ^ 32 → j.encode (Value.int (ℤ.pos n)) ≡ some (line (print_uint32 n))
  pub float : ℕ → ℕ
  pub decode_uint32 :
      (n : ℕ) → n < 2 ^ 32 → j.unmarshal (line (print_uint32 n)) ≡ some (Value.float64 (float n))
  pub exact : (n : ℕ) → n < 2 ^ 32 → truncate (float n) ≡ ℤ.pos n

-- The parts of an identity, with texts of base 32, at most twenty.
pub record AreTexts (p : List (ℕ × Bytes)) : Type 0 where
  pub parts : AreParts p
  pub plain : All (λ (e : ℕ × Bytes). IsPlain e.1) p
  pub few : length p ≤ 20

print_digits-digits : (fuel n : ℕ) → All (λ (r : ℕ). is_bare r ≡ true) (print_digits fuel n)
unfolding print_digits
print_digits-digits zero n = tt
print_digits-digits (suc fuel) n =
    if_intro (All (λ (r : ℕ). is_bare r ≡ true)) (ltb n 10) (λ small. (ground (arith, small), tt))
      (λ large.
        All-append _ (print_digits fuel (n / 10)) ((b'0' + n % 10) ∷ [])
          (print_digits-digits fuel (n / 10))
          ((let below : n % 10 < 10 = omega arith in ground (arith, below)), tt))

length-print_digits : (fuel n : ℕ) → length (print_digits fuel n) ≤ fuel
unfolding print_digits
length-print_digits zero n = omega arith
length-print_digits (suc fuel) n =
    if_intro (λ (b : Bytes). length b ≤ suc fuel) (ltb n 10) (λ small. omega arith)
      (λ large. omega (
        arith,
        length-append (print_digits fuel (n / 10)) ((b'0' + n % 10) ∷ []),
        length-print_digits fuel (n / 10),
      ))

length-quote_bytes : (s : Bytes) → IsPlain s → length (quote_bytes s) ≡ length s
unfolding quote_bytes
length-quote_bytes [] h = refl
length-quote_bytes (r ∷ s) (hr, h) = rw (quote_byte_plain r hr) (ap suc (length-quote_bytes s h))

length-quote : (s : Bytes) → IsPlain s → length (quote s) ≡ length s + 2
unfolding quote
length-quote s h = omega (arith, length-append (quote_bytes s) (b'"' ∷ []), length-quote_bytes s h)

-- The fields of a handshake: the parts, and the time, which is read as `x`.
abbrev part_extra : ℕ → Bytes → Extra
part_extra k v = record {
  first = hex_digit (k / 16);
  second = hex_digit (k % 16);
  sent = Value.string v;
  spelled = line (quote v);
  read = Value.string v;
}

abbrev at_extra : ℕ → ℕ → Extra
at_extra at x = record {
  first = b'a';
  second = b't';
  sent = Value.int (ℤ.pos at);
  spelled = line (print_uint32 at);
  read = Value.float64 x;
}

abbrev extras : List (ℕ × Bytes) → ℕ → ℕ → List Extra
extras [] at x = at_extra at x ∷ []
extras ((k, v) ∷ p) at x = part_extra k v ∷ extras p at x

extras-some : (p : List (ℕ × Bytes)) (at x : ℕ) → is_empty (extras p at x) ≡ false
extras-some [] at x = refl
extras-some ((k, v) ∷ p) at x = refl

sent_of-extras :
    (p : List (ℕ × Bytes)) (at x : ℕ)
    → sent_of (extras p at x) ≡ written p ++ (at_key, Value.int (ℤ.pos at)) ∷ []
sent_of-extras [] at x = refl
sent_of-extras ((k, v) ∷ p) at x =
    ap (λ (m : List (Bytes × Value)). (hex_id k, Value.string v) ∷ m) (sent_of-extras p at x)

hex_plain : (n : ℕ) → n < 16 → is_plain (hex_digit n) ≡ true
hex_plain n h = ground arith

module _ (truncate : ℕ → ℤ) (j : Json) (laws : IsJson truncate j) where
  part-IsExtra : (k : ℕ) (v : Bytes) → k < 256 → IsPlain v → IsExtra j (part_extra k v)
  part-IsExtra k v byte h = record {
    plain_first = hex_plain (k / 16) (omega arith);
    plain_second = hex_plain (k % 16) (omega arith);
    encodes = laws.encode_string v h;
    scanned = quote-IsScanned v (plain_text v h);
    decodes = laws.decode_string v h;
  }

  at-IsExtra : (at : ℕ) → at < 2 ^ 32 → IsExtra j (at_extra at (laws.float at))
  unfolding print_uint32
  at-IsExtra at h = record {
    plain_first = refl;
    plain_second = refl;
    encodes = laws.encode_uint32 at h;
    scanned =
        digits-IsScanned (line (print_digits 10 at))
          (All-append _ (print_digits 10 at) (b'\n' ∷ []) (print_digits-digits 10 at) (refl, tt));
    decodes = laws.decode_uint32 at h;
  }

  extras-IsExtra :
      (p : List (ℕ × Bytes)) (at : ℕ)
      → All (λ (e : ℕ × Bytes). (e.0 < 256) × (length e.1 ≡ 52)) p
      → All (λ (e : ℕ × Bytes). IsPlain e.1) p
      → at < 2 ^ 32
      → All (IsExtra j) (extras p at (laws.float at))
  extras-IsExtra [] at b h small = (at-IsExtra at small, tt)
  extras-IsExtra ((k, v) ∷ p) at (b, bs) (h, hs) small =
      (part-IsExtra k v b.0 h, extras-IsExtra p at bs hs small)

-- The fields with their commas: 61 bytes for each part, and at most 17 for the time.
later-extras :
    (p : List (ℕ × Bytes)) (at x : ℕ)
    → All (λ (e : ℕ × Bytes). (e.0 < 256) × (length e.1 ≡ 52)) p
    → All (λ (e : ℕ × Bytes). IsPlain e.1) p
    → length (later (entries_of (extras p at x))) ≤ 61 * length p + 17
unfolding print_uint32
later-extras [] at x b h =
    let k : length (quote at_key) ≡ 4 = ap length (quote_pair b'a' b't' refl refl) in
    omega (
      arith,
      k,
      length-append (quote at_key) (b':' ∷ line (print_digits 10 at)),
      length-append (print_digits 10 at) (b'\n' ∷ []),
      length-append (quote at_key ++ (b':' ∷ line (print_digits 10 at))) [],
      length-print_digits 10 at,
    )
later-extras ((k, v) ∷ p) at x (b, bs) (h, hs) =
    let key : length (quote (hex_id k)) ≡ 4 = ap length (
      quote_pair (hex_digit (k / 16)) (hex_digit (k % 16)) (hex_plain (k / 16) (omega (arith, b.0)))
        (hex_plain (k % 16) (omega arith))) in
    let rest = later (entries_of (extras p at x)) in
    omega (
      arith,
      key,
      b.1,
      length-quote v h,
      length-append (quote (hex_id k)) (b':' ∷ line (quote v)),
      length-append (quote v) (b'\n' ∷ []),
      length-append (quote (hex_id k) ++ (b':' ∷ line (quote v))) rest,
      later-extras p at x bs hs,
    )

joined-later :
    (l : List Extra)
    → is_empty l ≡ false
    → length (later (entries_of l)) ≡ 1 + length (joined (entries_of l))
joined-later [] e = absurd (ground arith)
joined-later (f ∷ l) e = omega arith

-- The extra headers are all that `ApplyToHeader` and `SetUint32` touch.
apply_to_header-record :
    (p : List (ℕ × Bytes)) (h : Header)
    → apply_to_header p h ≡ record h { extra = (apply_to_header p h).extra }
unfolding apply_to_header set_string set
apply_to_header-record [] h = refl
apply_to_header-record ((k, v) ∷ p) h = apply_to_header-record p (set_string (hex_id k) v h)

hex-ne-t : (n : ℕ) → n < 16 → (hex_digit n == b't') ≡ false
hex-ne-t n h = ground arith

at-apart :
    (p : List (ℕ × Bytes))
    → All (λ (e : ℕ × Bytes). (e.0 < 256) × (length e.1 ≡ 52)) p
    → NotIn at_key (written p)
unfolding bytes_eq
at-apart [] h = tt
at-apart ((k, v) ∷ p) (b, h) =
    ((let t = hex-ne-t (k % 16) (omega arith) in ground (arith, t)), at-apart p h)

extra-apply_to_header :
    (p : List (ℕ × Bytes)) → AreParts p → (apply_to_header p empty_header).extra ≡ written p
extra-apply_to_header p a = apply_to_header-extra p empty_header a (no_keys p)

sent-header :
    (p : List (ℕ × Bytes)) (at x : ℕ)
    → AreParts p
    → set_uint32 at_key at (apply_to_header p empty_header) ≡ unknown (sent_of (extras p at x))
unfolding set_uint32 set_int set
sent-header p at x a =
    let v = Value.int (ℤ.pos at) in
    let m : set_extra at_key v (apply_to_header p empty_header).extra ≡ sent_of (extras p at x) =
      ap (set_extra at_key v) (extra-apply_to_header p a)
      ∙ set_extra-new at_key v (written p) (at-apart p a.1)
      ∙ sym (sent_of-extras p at x) in
    ap
      (λ (h : Header). record h {
        extra = set_extra at_key v (apply_to_header p empty_header).extra;
      })
      (apply_to_header-record p empty_header)
    ∙ ap unknown m

-- The header that is read: the parts as they were, and the time as a float64.
abbrev read_header : List (ℕ × Bytes) → ℕ → Header → Header
read_header p x h = set at_key (Value.float64 x) (apply_to_header p h)

apply_entries-extras :
    (p : List (ℕ × Bytes)) (at x : ℕ) (h : Header)
    → apply_entries (entries_of (extras p at x)) h ≡ read_header p x h
unfolding apply_to_header set_string set
apply_entries-extras [] at x h = refl
apply_entries-extras ((k, v) ∷ p) at x h = apply_entries-extras p at x (set_string (hex_id k) v h)

delete_extra-apart :
    (m : List (Bytes × Value)) (v : Value)
    → NotIn at_key m
    → delete_extra at_key (m ++ (at_key, v) ∷ []) ≡ m
unfolding bytes_eq
delete_extra-apart [] v h = refl
delete_extra-apart ((k, w) ∷ m) v (apart, h) =
    let rest = delete_extra-apart m v h in grind (arith, apart, rest)

without_at-read_header :
    (p : List (ℕ × Bytes)) (x : ℕ)
    → AreParts p
    → let h = read_header p x empty_header in
      record h { extra = delete_extra at_key h.extra } ≡ apply_to_header p empty_header
unfolding set
without_at-read_header p x a =
    let v = Value.float64 x in
    let e = extra-apply_to_header p a in
    let m : delete_extra at_key (set_extra at_key v (apply_to_header p empty_header).extra)
        ≡ (apply_to_header p empty_header).extra =
      ap (λ (l : List (Bytes × Value)). delete_extra at_key (set_extra at_key v l)) e
      ∙ ap (delete_extra at_key) (set_extra-new at_key v (written p) (at-apart p a.1))
      ∙ delete_extra-apart (written p) v (at-apart p a.1)
      ∙ sym e in
    ap (λ (l : List (Bytes × Value)). record (apply_to_header p empty_header) { extra = l }) m

-- The packet inside a handshake, as both cipher sets build it, and what is read of it.
pub record Inner (truncate : ℕ → ℤ) (j : Json) (at : ℕ) (compact : List (ℕ × Bytes)) (body : Bytes)
    : Type 0 where
  pub plain : Bytes
  pub encodes :
      encode j (record {
        header = set_uint32 at_key at (apply_to_header compact empty_header);
        body = body;
      })
      ≡ Coder.ok plain
  pub short : length plain ≤ 61 * length compact + 20 + length body
  pub inner : Packet
  pub decodes : decode j plain ≡ Coder.ok inner
  pub same_body : inner.body ≡ body
  pub is_at : get_uint32 truncate inner.header at_key ≡ some at
  pub parts : List (ℕ × Bytes)
  pub has_parts :
      parts_from_header (record inner.header { extra = delete_extra at_key inner.header.extra })
      ≡ some parts
  pub same_parts : (k : ℕ) → lookup k parts ≡ lookup k compact

get_uint32-read_header :
    (truncate : ℕ → ℤ) (p : List (ℕ × Bytes)) (x at : ℕ)
    → truncate x ≡ ℤ.pos at
    → at < 2 ^ 32
    → get_uint32 truncate (read_header p x empty_header) at_key ≡ some at
unfolding get_uint32 get_int
get_uint32-read_header truncate p x at e small =
    ap (λ o. to_uint32 (as_int truncate o))
      (get-set_same at_key (Value.float64 x) (apply_to_header p empty_header))
    ∙ ap (λ n. to_uint32 (some n)) e
    ∙ ap some (omega arith)

-- With a body of at most 200 bytes, the packet inside a handshake is encoded, and read again with the
-- same body, time and parts.
pub inner_lem :
    (truncate : ℕ → ℤ) (j : Json) (at : ℕ) (compact : List (ℕ × Bytes)) (body : Bytes)
    → IsJson truncate j
    → at < 2 ^ 32
    → AreTexts compact
    → length body ≤ 200
    → Inner truncate j at compact body
inner_lem truncate j at compact body laws small texts fits =
    let x = laws.float at in
    let a = texts.parts in
    let l = extras compact at x in
    let some_field = extras-some compact at x in
    let size : length (Extras.written j l) ≤ 61 * length compact + 18 = omega (
      arith,
      later-extras compact at x a.1 texts.plain,
      joined-later l some_field,
      length-append (joined (entries_of l)) (b'}' ∷ []),
    ) in
    let (b, done, back, long) =
      decode-encode_some j l body some_field
        (extras-IsExtra truncate j laws compact at a.1 texts.plain small)
        (omega (arith, size, texts.few)) in
    let (parts, read, same) = parts_from_header-apply_to_header compact a in
    record {
      plain = b;
      encodes =
          ap (λ (h : Header). encode j (record { header = h; body = body }))
            (sent-header compact at x a)
          ∙ done;
      short = omega (arith, long, size);
      inner = record { header = read_header compact x empty_header; body = body };
      decodes =
          back
          ∙ ap (λ (h : Header). Coder.ok (record { header = h; body = body }))
              (apply_entries-extras compact at x empty_header);
      same_body = refl;
      is_at = get_uint32-read_header truncate compact x at (laws.exact at small) small;
      parts = parts;
      has_parts = ap parts_from_header (without_at-read_header compact x a) ∙ read;
      same_parts = same;
    }
