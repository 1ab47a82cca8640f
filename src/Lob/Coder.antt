-- ===== src/Lob/Coder.antt =====
-- internal/lob/coder.go: `Decode` and `Encode`. The pools are not modelled: a buffer is its bytes,
-- and `bufpool.Buffer.Set` panics above 1500 of them.
use gogotelehash.Lob.Packet.{Bytes, Header, Packet, empty_header, is_zero, is_binary}
use gogotelehash.Lob.Parse.{Json}
use gogotelehash.Lob.Parse.Fields.{parse_header}
use gogotelehash.Lob.Print.{write_to}
use gogotelehash.Prelude.{
  ℕ, ◌+◌, ◌*◌, ◌/◌, ◌%◌, not, Option, none, some, [], ◌∷◌, ◌++◌, ltb, leb, if◌then◌else◌, length,
  take, drop,
}

abbrev pub buffer_size : ℕ
buffer_size = 1500

-- How a call ends: with a value, with an error, or with a panic.
pub data Outcome {ℓ} (A : Type ℓ) : Type ℓ where
  ok : A → Outcome A
  invalid_packet encoding_error panics : Outcome A

-- `buffer.Set(data)`
abbrev pub set_buffer {ℓ} : {A : Type ℓ} → Bytes → Outcome A → Outcome A
set_buffer b k = if ltb buffer_size (length b) then panics else k

abbrev pub decoded : Bytes → Option Header → Outcome Packet
decoded body none = invalid_packet
decoded body (some h) = ok (record { header = h; body = body })

-- The two bytes that begin every packet.
abbrev pub uint16 : ℕ → ℕ → ℕ
uint16 hi lo = hi * 256 + lo

-- The header's bytes. Nothing is written for an empty one.
abbrev pub json_header : Option Bytes → Outcome Bytes
json_header none = encoding_error
json_header (some b) = if ltb (length b) 7 then invalid_packet else ok b

-- `binary.BigEndian.PutUint16(p.RawBytes(), uint16(hdrLen))`
abbrev pub frame : Bytes → Bytes → Bytes
frame head body = (length head / 256 % 256) ∷ (length head % 256) ∷ (head ++ body)

abbrev pub framed : Bytes → Outcome Bytes → Outcome Bytes
framed body (ok head) = set_buffer (frame head body) (ok (frame head body))
framed body invalid_packet = invalid_packet
framed body encoding_error = encoding_error
framed body panics = panics

module _ (j : Json) where
  -- A header of seven bytes or more is JSON, a shorter one is kept as it is.
  abbrev pub decode_header : Bytes → Option Header
  decode_header head =
      if leb 7 (length head)
      then parse_header j empty_header head
      else some (record empty_header { bytes = head })

  unfoldable pub decode : Bytes → Outcome Packet
  decode [] = invalid_packet
  decode (hi ∷ []) = invalid_packet
  decode (hi ∷ lo ∷ rest) =
      let n = uint16 hi lo in
      if ltb (length rest) n
      then invalid_packet
      else set_buffer (drop n rest) (decoded (drop n rest) (decode_header (take n rest)))

  unfoldable pub encode_header : Header → Outcome Bytes
  encode_header h =
      if is_zero h
      then ok []
      else if not (is_binary h)
      then json_header (write_to j h)
      else if leb 7 (length h.bytes)
      then invalid_packet
      else ok h.bytes

  unfoldable pub encode : Packet → Outcome Bytes
  unfolding encode_header
  encode pkt = framed pkt.body (encode_header pkt.header)
