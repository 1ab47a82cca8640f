-- ===== src/Lob/RoundTrip/Whole.antt =====
-- internal/lob: `Decode` on what `Encode` has written.
use gogotelehash.Lob.Packet.{Bytes, Header, Packet, empty_header, is_empty, is_zero, is_binary}
use gogotelehash.Lob.Parse.{Json}
use gogotelehash.Lob.Parse.Fields.{parse_header}
use gogotelehash.Lob.Print.{write_to, Writer, write_extra}
use gogotelehash.Lob.Coder.{
  Outcome, ok, invalid_packet, encoding_error, panics, decode, encode, encode_header, frame, framed,
  decode_header, json_header, uint16, buffer_size,
}
use gogotelehash.Lob.RoundTrip.Field.{Entry, Parses}
use gogotelehash.Lob.RoundTrip.Object.{
  joined, buf-write_entries, parse_header-joined, apply_entries,
}
use gogotelehash.Lob.RoundTrip.Canonical.{
  IsCanonical, entries, write_known-entries, entries-Parses, apply_entries-IsCanonical,
  is_empty-entries,
}
use gogotelehash.Prelude.{
  take-append, drop-append, ◌≡◌, arith, ◌/◌, ◌≤◌, refl, ap, true, false, some, List, [], ◌∷◌, ◌++◌,
  length, ◌%◌, ◌∙◌, subst, inl, inr, ltb, Bool-cases, length-append, sym, leb, All,
}

-- A packet that is framed fits the buffer.
pub framed-ok :
    (body b : Bytes) (o : Outcome Bytes)
    → framed body o ≡ ok b
    → (head : Bytes) × (o ≡ ok head) × (b ≡ frame head body) × (length b ≤ buffer_size)
framed-ok body b (ok head) e = elim (Bool-cases (ltb buffer_size (length (frame head body)))) [
  | inl large ↦ absurd (ground (arith, e, large))
  | inr small ↦ (head, refl, ground (arith, e, small), ground (arith, small))
]
framed-ok body b invalid_packet e = absurd (ground arith)
framed-ok body b encoding_error e = absurd (ground arith)
framed-ok body b panics e = absurd (ground arith)

is_empty-nil : (l : List Entry) → is_empty l ≡ true → l ≡ []
is_empty-nil [] e = refl
is_empty-nil (x ∷ l) e = absurd (ground arith)

-- What `Encode` takes for the header is seven bytes long at least.
pub json_header-ok :
    (b head : Bytes) → json_header (some b) ≡ ok head → (head ≡ b) × (leb 7 (length b) ≡ true)
json_header-ok b head e = elim (Bool-cases (ltb (length b) 7)) [
  | inl short ↦ absurd (ground (arith, e, short))
  | inr long ↦ (ground (arith, e, long), ground (arith, long))
]

module _ (j : Json) where
  -- A frame is taken apart where it was put together.
  pub decode-frame :
      (head body : Bytes) (h : Header)
      → length (frame head body) ≤ buffer_size
      → decode_header j head ≡ some h
      → decode j (frame head body) ≡ ok (record { header = h; body = body })
  unfolding decode
  decode-frame head body h fits e =
      let n = length head in
      let low : uint16 (n / 256 % 256) (n % 256) ≡ n =
        (let l = length-append head body in omega arith) in
      let all : ltb (length (head ++ body)) n ≡ false =
        (let l = length-append head body in ground arith) in
      let room : ltb buffer_size (length body) ≡ false =
        (let l = length-append head body in ground arith) in
      rw (low, all, take-append head body refl, drop-append head body refl, room, e) refl

  pub write_to-entries :
      (h : Header) → IsCanonical h → write_to j h ≡ some (b'{' ∷ (joined (entries h) ++ b'}' ∷ []))
  unfolding write_to write_extra
  write_to-entries h k =
      let w : Writer = record { first = true; buf = b'{' ∷ [] } in
      rw (k.no_extra) (
        ap (λ (b : Bytes). some (b ++ b'}' ∷ []))
          (ap (λ (x : Writer). x.buf) (write_known-entries h w)
            ∙ buf-write_entries (entries h) (b'{' ∷ [])))

  -- A header of no fields is the empty one.
  decode_header-zero : (h : Header) → IsCanonical h → is_zero h ≡ true → decode_header j [] ≡ some h
  decode_header-zero h k z =
      let none_written = is_empty-nil (entries h) (is_empty-entries h k ∙ z) in
      ap some (
        sym (ap (λ (l : List Entry). apply_entries l empty_header) none_written)
        ∙ apply_entries-IsCanonical h k)

  pub parse_header-entries :
      (h : Header) (l : List Entry)
      → is_empty l ≡ false
      → All (Parses j) l
      → parse_header j empty_header (b'{' ∷ (joined l ++ b'}' ∷ []))
        ≡ some (apply_entries l empty_header)
  parse_header-entries h [] n p = absurd (ground arith)
  parse_header-entries h (e ∷ l) n (pe, pl) = parse_header-joined j e l empty_header pe pl

  decode_header-written :
      (h : Header) (head : Bytes)
      → IsCanonical h
      → is_zero h ≡ false
      → json_header (write_to j h) ≡ ok head
      → decode_header j head ≡ some h
  decode_header-written h head k z e =
      let written = b'{' ∷ (joined (entries h) ++ b'}' ∷ []) in
      let (same, long) =
        json_header-ok written head (sym (ap json_header (write_to-entries h k)) ∙ e) in
      let parsed =
        parse_header-entries h (entries h) (is_empty-entries h k ∙ z) (entries-Parses j h k)
        ∙ ap some (apply_entries-IsCanonical h k) in
      ap (decode_header j) same ∙ rw (long) parsed

  -- The bytes that the encoder writes for a header are read back.
  decode_header-encode_header :
      (h : Header) (head : Bytes)
      → IsCanonical h
      → encode_header j h ≡ ok head
      → decode_header j head ≡ some h
  unfolding encode_header is_binary
  decode_header-encode_header h head k e = elim (Bool-cases (is_zero h)) [
    | inl zero_h ↦
        let nil : head ≡ [] = ground (arith, e, zero_h) in
        ap (decode_header j) nil ∙ decode_header-zero h k zero_h
    | inr some_h ↦
        let no_bytes = ap is_empty k.no_bytes in
        decode_header-written h head k some_h (ground (arith, e, some_h, no_bytes))
  ]

  -- A packet whose header holds known fields only, blank where they are not set, with numbers that fit
  -- uint32, no empty list of misses that is set, and a type of printed ASCII or of the five control
  -- characters with a JSON escape: whenever `Encode` returns bytes for it, `Decode` gives the packet
  -- back, header and body.
  pub decode-encode :
      (pkt : Packet) (b : Bytes)
      → IsCanonical pkt.header
      → encode j pkt ≡ ok b
      → decode j b ≡ ok pkt
  unfolding encode
  decode-encode pkt b k e =
      let (head, he, hb, fits) = framed-ok pkt.body b (encode_header j pkt.header) e in
      ap (decode j) hb
      ∙ decode-frame head pkt.body pkt.header
          (subst (λ (x : Bytes). length x ≤ buffer_size) hb fits)
          (decode_header-encode_header pkt.header head k he)
