-- ===== src/Lob/Tests.antt =====
-- internal/lob: the model run on small packets, and the theorems at concrete inputs.
use Prim.Native.Char.{code}
use Prim.Native.String.{String}
use gogotelehash.Lob.Packet.{Bytes, Header, Packet, empty_header, Value, is_zero, is_binary}
use gogotelehash.Lob.Parse.{parse_bool, Json, parse_uint32, parse_string, uint32_loop, unescape}
use gogotelehash.Lob.Parse.Fields.{parse_miss_list, parse_header, parse_key}
use gogotelehash.Lob.Scan.{parse_prefix, scan_string}
use gogotelehash.Lob.Print.{print_miss, write_to, print_digits, quote}
use gogotelehash.Lob.Coder.{encode, decode, ok}
use gogotelehash.Prelude.{◌≡◌, refl, true, Option, none, some, [], ◌∷◌, ◌++◌, arith}
use gogotelehash.Lob.RoundTrip.Canonical.{IsCanonical}
use gogotelehash.Lob.RoundTrip.Whole.{decode-encode}
use mathlib.Core.Bool.{true≢false}
use gogotelehash.Lob.RoundTrip.Total.{encode_returns}

-- Code points; every literal below is ASCII.
abbrev codes : String → Bytes
codes String.[] = []
codes (String.◌∷◌ c s) = code c ∷ codes s

-- A codec for strings of plain characters.
abbrev quoted : Bytes → Option Value
quoted v = some (Value.string v)

abbrev strings : Json
strings = record { unmarshal = quoted; encode = λ v. none }

abbrev hdr : Header
hdr = record empty_header {
  c = 12;
  has_c = true;
  type = codes "stream";
  has_type = true;
  seq = 7;
  has_seq = true;
  miss = 1 ∷ 20 ∷ [];
  has_miss = true;
  ack = 4;
  has_ack = true;
  end = true;
  has_end = true;
}

write_hdr :
    write_to strings hdr
    ≡ some (codes "{\"c\":12,\"type\":\"stream\",\"end\":true,\"seq\":7,\"ack\":4,\"miss\":[1,20]}")
unfolding write_to print_miss print_digits
write_hdr = refl

parse_hdr :
    parse_header strings empty_header (
      codes
        " { \"c\" : 12 ,\"type\":\"str\\u0065am\",\"end\":true,\"seq\":7,\"ack\":4,\"miss\":[1,20]} ")
    ≡ some hdr
unfolding parse_header parse_key parse_uint32 parse_string parse_prefix parse_bool parse_miss_list
    uint32_loop scan_string unescape
parse_hdr = refl

encode_hdr :
    decode strings (0 ∷ 7 ∷ (codes "{\"c\":3}" ++ 1 ∷ 2 ∷ []))
    ≡ ok (record { header = record empty_header { c = 3; has_c = true }; body = 1 ∷ 2 ∷ [] })
unfolding decode parse_header parse_prefix parse_key parse_uint32 uint32_loop
encode_hdr = refl

-- The header of the packets of an open stream, and a packet of it.
stream-IsCanonical : IsCanonical hdr
stream-IsCanonical = record {
  no_bytes = refl;
  no_extra = refl;
  c_fits = omega arith;
  seq_fits = omega arith;
  ack_fits = omega arith;
  miss_fits = (omega arith, (omega arith, tt));
  type_text = (refl, (refl, (refl, (refl, (refl, (refl, tt))))));
  blank_c = λ e. absurd (true≢false e);
  blank_type = λ e. absurd (true≢false e);
  blank_end = λ e. absurd (true≢false e);
  blank_seq = λ e. absurd (true≢false e);
  blank_ack = λ e. absurd (true≢false e);
  blank_miss = λ e. absurd (true≢false e);
  some_miss = λ _. refl;
}

abbrev stream_packet : Packet
stream_packet = record { header = hdr; body = 9 ∷ 8 ∷ [] }

abbrev stream_bytes : Bytes
stream_bytes =
    0
    ∷ 65
    ∷ (codes "{\"c\":12,\"type\":\"stream\",\"end\":true,\"seq\":7,\"ack\":4,\"miss\":[1,20]}"
        ++ 9 ∷ 8 ∷ [])

encode_stream : encode strings stream_packet ≡ ok stream_bytes
unfolding encode write_to print_miss print_digits is_zero is_binary
encode_stream = refl

decode-encode_example : decode strings stream_bytes ≡ ok stream_packet
decode-encode_example =
    decode-encode strings stream_packet stream_bytes stream-IsCanonical encode_stream

-- `%q` writes `\a` for byte 7, which the decoder refuses.
bell_refused : parse_string (quote (7 ∷ [])) ≡ none
unfolding parse_string quote scan_string unescape
bell_refused = refl

abbrev peer : Bytes
peer = codes "peer"

abbrev stream_header : Bytes
stream_header =
    codes "{\"c\":12,\"type\":\"stream\",\"end\":true,\"seq\":7,\"ack\":4,\"miss\":[1,20]}"

encode_returns_example :
    (b : Bytes) × (encode strings stream_packet ≡ ok b) × (decode strings b ≡ ok stream_packet)
encode_returns_example =
    encode_returns strings stream_packet stream_header stream-IsCanonical write_hdr (omega arith)
