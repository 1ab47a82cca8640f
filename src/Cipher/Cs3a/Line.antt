-- ===== src/Cipher/Cs3a/Line.antt =====
-- e3x/cipherset/cs3a/cs3a_cipher.go: the packets of an exchange, sealed with its line keys.
pub mod RoundTrip
pub mod Nonce
use gogotelehash.Cipher.Answer.{
  Answer, ok, invalid_state, invalid_packet, panics, some_or, then_lob, with_len, is_some,
}
use gogotelehash.Cipher.Cs3a.{Nacl, State, bytes_or_nil, len_nonce}
use gogotelehash.Cipher.Token.{len_token}
use gogotelehash.Lob.Coder.{encode, decode}
use gogotelehash.Lob.Packet.{Bytes, Packet, empty_header, is_zero}
use gogotelehash.Lob.Parse.{Json}
use gogotelehash.Lob.Parse.Fields.{bytes_eq}
use gogotelehash.Prelude.{
  ℕ, zero, ◌+◌, ◌-◌, ◌/◌, ◌%◌, ◌^◌, Bool, not, ◌&&◌, ◌||◌, Option, some, [], ◌∷◌, ◌++◌, ltb,
  if◌then◌else◌, length, take, drop,
}

abbrev pub can_encrypt_packet : State → Bool
can_encrypt_packet s = is_some s.line_encryption_key && is_some s.remote_token

abbrev pub can_decrypt_packet : State → Bool
can_decrypt_packet s = is_some s.line_decryption_key && is_some s.local_token

-- `binary.BigEndian.PutUint64`
unfoldable pub uint64_bytes : ℕ → Bytes
uint64_bytes n =
    (n / 2 ^ 56 % 256)
    ∷ (n / 2 ^ 48 % 256)
    ∷ (n / 2 ^ 40 % 256)
    ∷ (n / 2 ^ 32 % 256)
    ∷ (n / 2 ^ 24 % 256)
    ∷ (n / 2 ^ 16 % 256)
    ∷ (n / 2 ^ 8 % 256)
    ∷ (n % 256)
    ∷ []

-- `atomic.AddUint64(&s.pktNonceSuffix, 1)`
abbrev pub next_suffix : State → ℕ
next_suffix s = (s.pkt_nonce_suffix + 1) % 2 ^ 64

unfoldable pub pkt_nonce : State → Bytes
unfolding uint64_bytes
pkt_nonce s = bytes_or_nil s.pkt_nonce_prefix ++ uint64_bytes (next_suffix s)

module _ (N : Nacl) (j : Json) where
  open N use {seal, open_box}

  -- Token, nonce and box.
  abbrev pub outer_body : Bytes → State → Bytes
  outer_body inner s =
      bytes_or_nil s.remote_token
      ++ (pkt_nonce s ++ seal inner (pkt_nonce s) (bytes_or_nil s.line_encryption_key))

  abbrev pub outer_packet : Bytes → State → Answer (State × Packet)
  outer_packet inner s = with_len (len_token + len_nonce + length inner + 16) (
      ok (
        record s { pkt_nonce_suffix = next_suffix s },
        record { header = empty_header; body = outer_body inner s },
      ))

  -- `EncryptPacket` of a packet that is not nil.
  unfoldable pub encrypt_packet : Packet → State → Answer (State × Packet)
  encrypt_packet pkt s =
      if not (can_encrypt_packet s)
      then invalid_state
      else then_lob (encode j pkt) (λ inner. outer_packet inner s)

  abbrev pub open_line : Bytes → State → Option Bytes
  open_line body s =
      open_box (drop (len_token + len_nonce) body) (take len_nonce (drop len_token body))
        (bytes_or_nil s.line_decryption_key)

  -- `DecryptPacket` of a packet that is not nil; the buffer is made before the token is compared.
  unfoldable pub decrypt_packet : Packet → State → Answer Packet
  decrypt_packet pkt s =
      if not (can_decrypt_packet s)
      then invalid_state
      else if not (is_zero pkt.header) || ltb (length pkt.body) (len_token + len_nonce)
      then invalid_packet
      else with_len (length pkt.body) (
          if not (bytes_eq (take len_token pkt.body) (bytes_or_nil s.local_token))
          then invalid_packet
          else some_or invalid_packet (open_line pkt.body s)
              (λ inner. with_len (length inner) (then_lob (decode j inner) (λ p. ok p))))
