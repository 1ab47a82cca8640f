-- ===== src/Lob/RoundTrip/Total.antt =====
-- internal/lob: `Encode` returns bytes for a header of known fields, if they fit the buffer.
use gogotelehash.Lob.Packet.{Bytes, Header, Packet, is_empty, is_zero, is_binary}
use gogotelehash.Lob.Parse.{Json}
use gogotelehash.Lob.Print.{write_to, print_uint32}
use gogotelehash.Lob.Coder.{
  ok, encode, encode_header, json_header, frame, framed, buffer_size, decode,
}
use gogotelehash.Lob.RoundTrip.Number.{Fits, print_uint32-ne-empty}
use gogotelehash.Lob.RoundTrip.Field.{
  Entry, text, c_entry, seq_entry, ack_entry, type_entry, end_entry, miss_entry,
}
use gogotelehash.Lob.RoundTrip.Object.{joined, later}
use gogotelehash.Lob.RoundTrip.Canonical.{IsCanonical, entries, entry_if, is_empty-entries}
use gogotelehash.Lob.RoundTrip.Whole.{write_to-entries, decode-encode}
use gogotelehash.Prelude.{
  ℕ, ◌≡◌, arith, ◌+◌, ◌≤◌, ◌<◌, ap, Bool, true, false, not, ◌&&◌, some, List, [], ◌∷◌, ◌++◌, length,
  All, length-append, refl, sym, ◌∙◌, inl, inr, Option, none, ltb, Bool-cases,
}

-- A field takes five bytes at least: `"c":0` is the shortest.
abbrev IsLong : Entry → Type 0
IsLong e = 5 ≤ length (text e)

not_empty-length : (b : Bytes) → is_empty (b ++ []) ≡ false → 0 < length b
not_empty-length [] h = absurd (ground arith)
not_empty-length (x ∷ b) h = omega arith

c_entry-IsLong : (n : ℕ) → Fits n → IsLong (c_entry n)
c_entry-IsLong n b =
    let l = not_empty-length (print_uint32 n) (print_uint32-ne-empty n [] b) in omega arith

entry_if-IsLong :
    (b : Bool) (e : Entry) (l : List Entry)
    → IsLong e
    → All IsLong l
    → All IsLong (entry_if b e ++ l)
entry_if-IsLong true e l he hl = (he, hl)
entry_if-IsLong false e l he hl = hl

last_entry-IsLong : (b : Bool) (e : Entry) → IsLong e → All IsLong (entry_if b e)
last_entry-IsLong true e he = (he, tt)
last_entry-IsLong false e he = tt

entries-IsLong : (h : Header) → IsCanonical h → All IsLong (entries h)
entries-IsLong h k = entry_if-IsLong h.has_c (c_entry h.c) _ (c_entry-IsLong h.c k.c_fits) (
    entry_if-IsLong h.has_type (type_entry h.type) _ (omega arith) (
      entry_if-IsLong h.has_end (end_entry h.end) _ (omega arith) (
        entry_if-IsLong h.has_seq (seq_entry h.seq) _ (omega arith) (
          entry_if-IsLong h.has_ack (ack_entry h.ack) _ (omega arith) (
            last_entry-IsLong (h.has_miss && not (is_empty h.miss)) (miss_entry h.miss)
              (omega arith))))))

joined-length : (l : List Entry) → is_empty l ≡ false → All IsLong l → 5 ≤ length (joined l)
joined-length [] n h = absurd (ground arith)
joined-length (e ∷ l) n (he, h) = let s = length-append (text e) (later l) in omega (arith, he)

written_text : {a b : Bytes} → some a ≡ some b → a ≡ b
written_text {a} {b} e = ap (λ (o : Option Bytes). elim o [ none ↦ a | some x ↦ x ]) e

module _ (j : Json) where
  -- The header that is written for a header with fields is taken.
  json_header-written :
      (h : Header) (t : Bytes)
      → IsCanonical h
      → is_zero h ≡ false
      → write_to j h ≡ some t
      → json_header (some t) ≡ ok t
  json_header-written h t k z e =
      let long = joined-length (entries h) (is_empty-entries h k ∙ z) (entries-IsLong h k) in
      let same = ap length (written_text (sym e ∙ write_to-entries j h k)) in
      let l = length-append (joined (entries h)) (b'}' ∷ []) in
      let enough : ltb (length t) 7 ≡ false = ground (arith, same, long, l) in rw (enough) refl

  -- What is encoded is as long as the header's bytes and the body, and two bytes more.
  pub frame-set_buffer :
      (body head : Bytes)
      → 2 + (length head + length body) ≤ buffer_size
      → framed body (ok head) ≡ ok (frame head body)
  frame-set_buffer body head fits =
      let l = length-append head body in
      let room : ltb buffer_size (length (frame head body)) ≡ false = ground arith in rw (room) refl

  header_returns :
      (h : Header) (t : Bytes)
      → IsCanonical h
      → write_to j h ≡ some t
      → (head : Bytes) × (encode_header j h ≡ ok head) × (length head ≤ length t)
  unfolding encode_header is_binary
  header_returns h t k e =
      let no_bytes = ap is_empty k.no_bytes in
      elim (Bool-cases (is_zero h)) [
        | inl none_set ↦ ([], rw (none_set) refl, omega arith)
        | inr some_set ↦
            (t, rw (some_set, no_bytes, e) (json_header-written h t k some_set e), omega arith)
      ]

  -- The same with a bound on the length.
  pub encode_bound :
      (pkt : Packet) (t : Bytes)
      → IsCanonical pkt.header
      → write_to j pkt.header ≡ some t
      → 2 + (length t + length pkt.body) ≤ buffer_size
      → (b : Bytes) × (encode j pkt ≡ ok b)
        × (decode j b ≡ ok pkt)
        × (length b ≤ 2 + (length t + length pkt.body))
  unfolding encode
  encode_bound pkt t k e fits =
      let (head, he, short) = header_returns pkt.header t k e in
      let done = ap (framed pkt.body) he ∙ frame-set_buffer pkt.body head (omega (arith, short)) in
      (
        frame head pkt.body,
        done,
        decode-encode j pkt (frame head pkt.body) k done,
        omega (arith, short, length-append head pkt.body),
      )

  -- A packet with a header of known fields, as in `decode-encode`, whose text and body fit 1498 bytes:
  -- `Encode` returns bytes for it, and `Decode` gives the packet back from them.
  pub encode_returns :
      (pkt : Packet) (t : Bytes)
      → IsCanonical pkt.header
      → write_to j pkt.header ≡ some t
      → 2 + (length t + length pkt.body) ≤ buffer_size
      → (b : Bytes) × (encode j pkt ≡ ok b) × (decode j b ≡ ok pkt)
  encode_returns pkt t k e fits =
      let (b, done, back, short) = encode_bound pkt t k e fits in (b, done, back)
