-- ===== src/Lob/RoundTrip/Extras.antt =====
-- internal/lob: a header of fields that the header does not know is read back.
use gogotelehash.Lob.Coder.{
  ok, decode, encode, encode_header, frame, framed, json_header, decode_header, buffer_size,
}
use gogotelehash.Lob.Packet.{Bytes, Header, Value, empty_header, is_empty, is_zero, is_binary}
use gogotelehash.Lob.Parse.{Json}
use gogotelehash.Lob.Print.{Writer, write_to, write_extra, write_field, write_known, quote}
use gogotelehash.Lob.RoundTrip.Extra.{
  is_plain, IsScanned, extra_entry, extra_entry-Parses, quote_pair,
}
use gogotelehash.Lob.RoundTrip.Field.{Entry, text, Parses}
use gogotelehash.Lob.RoundTrip.Object.{
  joined, later, write_entries, apply_entries, buf-write_entries,
}
use gogotelehash.Lob.RoundTrip.Total.{frame-set_buffer}
use gogotelehash.Lob.RoundTrip.Whole.{decode-frame, parse_header-entries}
use gogotelehash.Prelude.{
  ℕ, ◌+◌, ◌≡◌, ◌≤◌, refl, ap, ◌∙◌, arith, true, false, some, List, [], ◌∷◌, ◌++◌, All, length, ltb,
  leb, length-append,
}

-- A field with a key of two characters: the value that is set, its text, and the value that is read.
pub record Extra : Type 0 where
  pub first : ℕ
  pub second : ℕ
  pub sent : Value
  pub spelled : Bytes
  pub read : Value

abbrev pub entry_of : Extra → Entry
entry_of f = extra_entry f.first f.second f.spelled f.read

abbrev pub entries_of : List Extra → List Entry
entries_of [] = []
entries_of (f ∷ l) = entry_of f ∷ entries_of l

abbrev pub sent_of : List Extra → List (Bytes × Value)
sent_of [] = []
sent_of (f ∷ l) = (f.first ∷ f.second ∷ [], f.sent) ∷ sent_of l

abbrev pub unknown : List (Bytes × Value) → Header
unknown m = record empty_header { extra = m }

module _ (j : Json) where
  -- The text of the value is what `json.Marshal` makes of it, and is read as `read`.
  pub record IsExtra (f : Extra) : Type 0 where
    pub plain_first : is_plain f.first ≡ true
    pub plain_second : is_plain f.second ≡ true
    pub encodes : j.encode f.sent ≡ some f.spelled
    pub scanned : IsScanned f.spelled
    pub decodes : j.unmarshal f.spelled ≡ some f.read

  entries_of-Parses : (l : List Extra) → All IsExtra l → All (Parses j) (entries_of l)
  entries_of-Parses [] h = tt
  entries_of-Parses (f ∷ l) (e, h) = (
    extra_entry-Parses j f.first f.second f.spelled f.read e.plain_first e.plain_second e.scanned
        e.decodes,
    entries_of-Parses l h,
  )

  write_extra-step :
      (k : Bytes) (v : Value) (t : Bytes) (m : List (Bytes × Value)) (w : Writer)
      → j.encode v ≡ some t
      → write_extra j ((k, v) ∷ m) w ≡ write_extra j m (write_field (quote k) t w)
  unfolding write_extra
  write_extra-step k v t m w e = grind (arith, e)

  write_extra-entries :
      (l : List Extra) (w : Writer)
      → All IsExtra l
      → write_extra j (sent_of l) w ≡ some (write_entries (entries_of l) w)
  unfolding write_extra
  write_extra-entries [] w h = refl
  write_extra-entries (f ∷ l) w (e, h) =
      write_extra-step (f.first ∷ f.second ∷ []) f.sent f.spelled (sent_of l) w e.encodes
      ∙ write_extra-entries l (write_field (quote (f.first ∷ f.second ∷ [])) f.spelled w) h

  abbrev pub written : List Extra → Bytes
  written l = b'{' ∷ (joined (entries_of l) ++ b'}' ∷ [])

  write_to-written :
      (l : List Extra) → All IsExtra l → write_to j (unknown (sent_of l)) ≡ some (written l)
  unfolding write_to write_known
  write_to-written l h =
      let w : Writer = record { first = true; buf = b'{' ∷ [] } in
      rw (write_extra-entries l w h)
        (ap (λ (b : Bytes). some (b ++ b'}' ∷ [])) (buf-write_entries (entries_of l) (b'{' ∷ [])))

  -- The text of one field has seven bytes with its braces.
  written-long : (f : Extra) (l : List Extra) → IsExtra f → ltb (length (written (f ∷ l))) 7 ≡ false
  written-long f l e =
      let k = quote (f.first ∷ f.second ∷ []) in
      let four : length k ≡ 4 =
        ap length (quote_pair f.first f.second e.plain_first e.plain_second) in
      let t = text (entry_of f) in
      let rest = later (entries_of l) in
      let a = length-append k (b':' ∷ f.spelled) in
      let b = length-append t rest in
      let c = length-append (t ++ rest) (b'}' ∷ []) in ground (arith, four, a, b, c)

  encode_header-written :
      (f : Extra) (l : List Extra)
      → All IsExtra (f ∷ l)
      → encode_header j (unknown (sent_of (f ∷ l))) ≡ ok (written (f ∷ l))
  unfolding encode_header is_zero is_binary
  encode_header-written f l h =
      ap json_header (write_to-written (f ∷ l) h) ∙ rw (written-long f l h.0) refl

  decode_header-written :
      (f : Extra) (l : List Extra)
      → All IsExtra (f ∷ l)
      → decode_header j (written (f ∷ l)) ≡ some (apply_entries (entries_of (f ∷ l)) empty_header)
  decode_header-written f l h =
      let long : leb 7 (length (written (f ∷ l))) ≡ true =
        (let n = written-long f l h.0 in ground (arith, n)) in
      rw (long) (
        parse_header-entries j empty_header (entries_of (f ∷ l)) refl (entries_of-Parses (f ∷ l) h))

  -- What `Encode` writes for a header of such fields, of which there is one at least, `Decode` reads as
  -- the header of the values that JSON gives, with the same body.
  pub decode-encode_extras :
      (f : Extra) (l : List Extra) (body : Bytes)
      → All IsExtra (f ∷ l)
      → 2 + (length (written (f ∷ l)) + length body) ≤ buffer_size
      → (b : Bytes) × (encode j (record { header = unknown (sent_of (f ∷ l)); body = body }) ≡ ok b)
        × (decode j b
            ≡ ok (record { header = apply_entries (entries_of (f ∷ l)) empty_header; body = body }))
        × (length b ≡ 2 + (length (written (f ∷ l)) + length body))
  unfolding encode
  decode-encode_extras f l body h fits =
      let head = written (f ∷ l) in
      let size : length (frame head body) ≡ 2 + (length head + length body) =
        omega (arith, length-append head body) in
      (
        frame head body,
        ap (framed body) (encode_header-written f l h) ∙ frame-set_buffer j body head fits,
        decode-frame j head body _ (omega (arith, size, fits)) (decode_header-written f l h),
        size,
      )

  -- The same for a list that is not empty.
  pub decode-encode_some :
      (l : List Extra) (body : Bytes)
      → is_empty l ≡ false
      → All IsExtra l
      → 2 + (length (written l) + length body) ≤ buffer_size
      → (b : Bytes) × (encode j (record { header = unknown (sent_of l); body = body }) ≡ ok b)
        × (decode j b
            ≡ ok (record { header = apply_entries (entries_of l) empty_header; body = body }))
        × (length b ≡ 2 + (length (written l) + length body))
  decode-encode_some [] body e h fits = absurd (ground arith)
  decode-encode_some (f ∷ l) body e h fits = decode-encode_extras f l body h fits
