-- ===== src/Cipher/Cs1a/Line.antt =====
-- e3x/cipherset/cs1a/cs1a_cipher.go: the packets of an exchange, encrypted and signed with its line keys.
pub mod RoundTrip
use gogotelehash.Cipher.Answer.{
  Answer, ok, invalid_state, invalid_packet, panics, some_or, then_lob, with_len, is_some,
}
use gogotelehash.Cipher.Cs1a.{Suite, State, nil_or}
use gogotelehash.Cipher.Cs1a.Fold.{fold}
use gogotelehash.Cipher.Cs1a.Message.{wide}
use gogotelehash.Lob.Coder.{encode, decode}
use gogotelehash.Lob.Packet.{Bytes, Packet, empty_header, is_zero}
use gogotelehash.Lob.Parse.{Json}
use gogotelehash.Lob.Parse.Fields.{bytes_eq}
use gogotelehash.Prelude.{
  ℕ, Bool, Option, none, some, List, [], ◌∷◌, length, if◌then◌else◌, zero, ◌+◌, ◌-◌, ◌/◌, not, ◌&&◌,
  ◌||◌, ◌++◌, ltb, take, drop,
}

module _ (S : Suite) where
  abbrev pub can_encrypt_packet : State S → Bool
  can_encrypt_packet s = is_some s.line_encryption_key && is_some s.remote_token

  abbrev pub can_decrypt_packet : State S → Bool
  can_decrypt_packet s = is_some s.line_decryption_key && is_some s.local_token

  module _ (j : Json) where
    open S use {hmac, ctr}

    -- Token, nonce, what is encrypted, and its sum.
    abbrev pub outer_of : Bytes → Bytes → Bytes → Bytes → Packet
    outer_of token nonce box mac = record {
      header = empty_header;
      body = token ++ (nonce ++ (box ++ mac));
    }

    abbrev pub sealed : Bytes → Bytes → Bytes → Bytes → Answer Packet
    sealed token key nonce inner =
        let box = ctr key (wide nonce) inner in
        some_or panics (fold (hmac (key ++ nonce) box) 4) (λ mac. ok (outer_of token nonce box mac))

    -- `EncryptPacket` of a packet that is not nil, with the 4 bytes that the source of random numbers
    -- gives. A line key has the 16 bytes that AES wants.
    unfoldable pub encrypt_packet : Bytes → Packet → State S → Answer Packet
    encrypt_packet nonce pkt s =
        if not (can_encrypt_packet s)
        then invalid_state
        else then_lob (encode j pkt) (λ inner.
          with_len (16 + 4 + length inner + 4)
            (sealed (nil_or s.remote_token) (nil_or s.line_encryption_key) nonce inner))

    abbrev pub inner_len : Bytes → ℕ
    inner_len body = length body - (16 + 4 + 4)

    abbrev pub nonce_part : Bytes → Bytes
    nonce_part body = take 4 (drop 16 body)

    abbrev pub box_part : Bytes → Bytes
    box_part body = take (inner_len body) (drop (16 + 4) body)

    abbrev pub mac_part : Bytes → Bytes
    mac_part body = drop (16 + 4 + inner_len body) body

    abbrev pub open_with : Bytes → Bytes → Answer Packet
    open_with key body =
        some_or panics (fold (hmac (key ++ nonce_part body) (box_part body)) 4) (λ mac.
          if not (bytes_eq (mac_part body) mac)
          then invalid_packet
          else then_lob (decode j (ctr key (wide (nonce_part body)) (box_part body))) (λ p. ok p))

    -- `DecryptPacket` of a packet that is not nil; the buffer is made before the token is compared.
    unfoldable pub decrypt_packet : Packet → State S → Answer Packet
    decrypt_packet pkt s =
        if not (can_decrypt_packet s)
        then invalid_state
        else if not (is_zero pkt.header) || ltb (length pkt.body) (16 + 4 + 4)
        then invalid_packet
        else with_len (length pkt.body) (
            if not (bytes_eq (take 16 pkt.body) (nil_or s.local_token))
            then invalid_packet
            else open_with (nil_or s.line_decryption_key) pkt.body)
