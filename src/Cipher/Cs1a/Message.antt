-- ===== src/Cipher/Cs1a/Message.antt =====
-- e3x/cipherset/cs1a/cs1a_cipher.go: messages and handshakes, which are encrypted for the peer's key.
pub mod Cut
pub mod Whole
pub mod RoundTrip
use gogotelehash.Cipher.Answer.{
  Answer, ok, invalid_state, invalid_message, panics, or_else, some_or, then_lob, with_len,
  delete_extra, at_key, is_some,
}
use gogotelehash.Cipher.Cs1a.{Suite, Key, State, Handshake, nil_or, public, can_encrypt}
use gogotelehash.Cipher.Cs1a.Fold.{fold}
use gogotelehash.Cipher.Parts.{parts_from_header, apply_to_header}
use gogotelehash.Lob.Coder.{encode, decode}
use gogotelehash.Lob.Extra.{get_uint32, set_uint32}
use gogotelehash.Lob.Packet.{Bytes, Header, Packet, ℤ, empty_header}
use gogotelehash.Lob.Parse.{Json}
use gogotelehash.Lob.Parse.Fields.{bytes_eq}
use gogotelehash.Prelude.{
  ℕ, Bool, Option, none, some, List, [], ◌∷◌, length, if◌then◌else◌, ◌+◌, ◌-◌, ◌/◌, ap, not, ◌&&◌,
  ◌++◌, ltb, ◌==◌, take, drop,
}

-- A nonce of 4 bytes in one of 16.
abbrev pub wide : Bytes → Bytes
wide iv = iv ++ 0 ∷ 0 ∷ 0 ∷ 0 ∷ 0 ∷ 0 ∷ 0 ∷ 0 ∷ 0 ∷ 0 ∷ 0 ∷ 0 ∷ []

module _ (S : Suite) where
  open S use {Point, unmarshal, marshal, shared, sha256, hmac, ctr}

  abbrev pub can_encrypt_message : State S → Bool
  can_encrypt_message s = is_some s.remote_key && is_some s.local_line_key

  -- The key of AES, of a shared secret.
  abbrev pub with_aes_key : Option Bytes → (Bytes → Answer Bytes) → Answer Bytes
  with_aes_key secret k =
      some_or invalid_message secret (λ secret. some_or panics (fold (sha256 secret) 16) k)

  abbrev pub signed : Bytes → Bytes → Answer Bytes
  signed key front = some_or panics (fold (hmac key front) 4) (λ mac. ok (front ++ mac))

  abbrev pub encrypt_to : Bytes → Key S → Point → Bytes → State S → Answer Bytes
  encrypt_to iv line remote plain s = with_aes_key (shared remote (nil_or line.prv)) (λ aes.
      signed (nil_or (shared remote (nil_or s.local_key.prv)) ++ iv)
        (public S line ++ (iv ++ ctr aes (wide iv) plain)))

  abbrev pub encrypt_with : Bytes → Option (Key S) → Option (Key S) → Bytes → State S → Answer Bytes
  encrypt_with iv none remote plain s = panics
  encrypt_with iv (some line) none plain s = panics
  encrypt_with iv (some line) (some remote) plain s =
      some_or panics remote.point (λ point. encrypt_to iv line point plain s)

  -- `EncryptMessage`, with the 4 bytes that the source of random numbers gives.
  unfoldable pub encrypt_message : Bytes → Bytes → State S → Answer Bytes
  encrypt_message iv plain s = with_len (21 + 4 + length plain + 4) (
      if not (can_encrypt_message s)
      then panics
      else encrypt_with iv s.local_line_key s.remote_key plain s)

  -- The parts of a message: 21 bytes, 4 bytes, what is encrypted, 4 bytes.
  abbrev pub ct_len : Bytes → ℕ
  ct_len p = length p - (21 + 4 + 4)

  abbrev pub line_part : Bytes → Bytes
  line_part p = take 21 p

  abbrev pub iv_part : Bytes → Bytes
  iv_part p = take 4 (drop 21 p)

  abbrev pub cipher_part : Bytes → Bytes
  cipher_part p = take (ct_len p) (drop (21 + 4) p)

  abbrev pub signed_part : Bytes → Bytes
  signed_part p = take (21 + 4 + ct_len p) p

  abbrev pub mac_part : Bytes → Bytes
  mac_part p = drop (21 + 4 + ct_len p) p

  -- The test of the sum under a key.
  abbrev pub verified {ℓ} : {A : Type ℓ} → Bytes → Bytes → Answer A → Answer A
  verified key p k =
      some_or panics (fold (hmac key (signed_part p)) 4)
        (λ mac. if not (bytes_eq (mac_part p) mac) then invalid_message else k)

  abbrev pub opened {ℓ} : {A : Type ℓ} → Bytes → Bytes → (Point → Bytes → Answer A) → Answer A
  opened prv p k = some_or invalid_message (unmarshal (line_part p)) (λ ephemeral.
      some_or invalid_message (shared ephemeral prv) (λ secret.
        some_or panics (fold (sha256 secret) 16)
          (λ aes. k ephemeral (ctr aes (wide (iv_part p)) (cipher_part p)))))

  -- `DecryptMessage`
  abbrev pub decrypt_from : Bytes → Bytes → Point → Answer Bytes
  decrypt_from prv p remote =
      verified (nil_or (shared remote prv) ++ iv_part p) p (opened prv p (λ ephemeral out. ok out))

  abbrev pub decrypt_keys : Option (Key S) → Option (Key S) → Bytes → Answer Bytes
  decrypt_keys none remote p = invalid_state
  decrypt_keys (some mine) none p = invalid_state
  decrypt_keys (some mine) (some remote) p =
      some_or panics remote.point (decrypt_from (nil_or mine.prv) p)

  unfoldable pub decrypt_message : Option (Key S) → Option (Key S) → Bytes → Answer Bytes
  decrypt_message mine remote p =
      if ltb (length p) (21 + 4 + 4) then invalid_message else decrypt_keys mine remote p

  module _ (truncate : ℕ → ℤ) (j : Json) where
    abbrev pub inner_handshake : ℕ → List (ℕ × Bytes) → State S → Packet
    inner_handshake at compact s = record {
      header = set_uint32 at_key at (apply_to_header compact empty_header);
      body = public S s.local_key;
    }

    -- `EncryptHandshake`
    unfoldable pub encrypt_handshake : Bytes → ℕ → List (ℕ × Bytes) → State S → Answer Bytes
    unfolding encrypt_message
    encrypt_handshake iv at compact s =
        then_lob (encode j (inner_handshake at compact s)) (λ plain. encrypt_message iv plain s)

    abbrev pub without_at : Header → Header
    without_at h = record h { extra = delete_extra at_key h.extra }

    -- `DecryptHandshake` behind the ciphertext; the sum is tested under a nonce of 16 bytes here.
    abbrev pub checked : Bytes → Bytes → Point → ℕ → List (ℕ × Bytes) → Bytes → Answer (Handshake S)
    checked prv p ephemeral at parts body =
        if not (length body == 21)
        then invalid_message
        else some_or invalid_message (unmarshal body) (λ remote.
          verified (nil_or (shared remote prv) ++ wide (iv_part p)) p (
            ok (record {
              key = record { point = some remote; prv = none };
              line_key = record { point = some ephemeral; prv = none };
              parts = parts;
              at = at;
            })))

    abbrev pub read_inner : Bytes → Bytes → Point → Packet → Answer (Handshake S)
    read_inner prv p ephemeral inner =
        some_or invalid_message (get_uint32 truncate inner.header at_key) (λ at.
          some_or invalid_message (parts_from_header (without_at inner.header))
            (λ parts. checked prv p ephemeral at parts inner.body))

    abbrev pub decrypt_handshake_key : Option (Key S) → Bytes → Answer (Handshake S)
    decrypt_handshake_key none p = invalid_state
    decrypt_handshake_key (some mine) p = opened (nil_or mine.prv) p (λ ephemeral out.
        with_len (ct_len p)
          (or_else invalid_message (decode j out) (read_inner (nil_or mine.prv) p ephemeral)))

    unfoldable pub decrypt_handshake : Option (Key S) → Bytes → Answer (Handshake S)
    decrypt_handshake mine p =
        if ltb (length p) (21 + 4 + 4) then invalid_message else decrypt_handshake_key mine p
