-- ===== src/Cipher/Cs3a/Message.antt =====
-- e3x/cipherset/cs3a/cs3a_cipher.go: messages and handshakes, which are sealed to the peer's key.
pub mod Cut
pub mod RoundTrip
pub mod Opening
use gogotelehash.Cipher.Answer.{
  Answer, ok, invalid_state, invalid_message, panics, or_else, some_or, then_lob, with_len,
  delete_extra, at_key, is_some,
}
use gogotelehash.Cipher.Cs3a.{
  Nacl, Key, public, private, State, Handshake, bytes_or_nil, len_key, len_nonce, len_auth,
}
use gogotelehash.Cipher.Parts.{parts_from_header, apply_to_header}
use gogotelehash.Lob.Coder.{encode, decode}
use gogotelehash.Lob.Extra.{get_uint32, set_uint32}
use gogotelehash.Lob.Packet.{Bytes, Header, Packet, ℤ, empty_header}
use gogotelehash.Lob.Parse.{Json}
use gogotelehash.Prelude.{
  ℕ, ◌+◌, ◌-◌, ◌/◌, ap, Bool, not, ◌&&◌, Option, none, some, List, [], ◌++◌, ltb, ◌==◌,
  if◌then◌else◌, length, take, drop,
}

-- `CanEncryptMessage`, `CanEncryptHandshake` and `CanDecryptMessage`; the local key is never nil.
abbrev pub can_encrypt_message : State → Bool
can_encrypt_message s = is_some s.remote_key && is_some s.local_line_key

abbrev pub can_decrypt_handshake : State → Bool
can_decrypt_handshake s = is_some s.local_line_key

module _ (N : Nacl) where
  open N use {precompute, seal, open_box, poly_sum, poly_verify, sha256}

  -- `macKey`
  abbrev pub mac_of_base : Bytes → Option Bytes → Option Bytes
  mac_of_base seq none = none
  mac_of_base seq (some base) = some (sha256 (seq ++ base))

  unfoldable pub mac_key : Bytes → State → Option Bytes
  mac_key seq s = if not (length seq == len_nonce) then none else mac_of_base seq s.mac_key_base

  -- `sign`, which appends to the message; a missing key is a panic.
  abbrev pub signed : Bytes → Option Bytes → Answer Bytes
  signed p none = panics
  signed p (some key) = ok (p ++ poly_sum p key)

  -- Line key, nonce and box.
  abbrev pub sealed_to : Bytes → Key → Key → Bytes → Bytes
  sealed_to nonce line remote plain =
      public line ++ (nonce ++ seal plain nonce (precompute (public remote) (private line)))

  abbrev pub encrypt_with : Option Bytes → Option Key → Option Key → Bytes → State → Answer Bytes
  encrypt_with none line remote plain s = panics
  encrypt_with (some nonce) none remote plain s = panics
  encrypt_with (some nonce) (some line) none plain s = panics
  encrypt_with (some nonce) (some line) (some remote) plain s =
      signed (sealed_to nonce line remote plain) (mac_key nonce s)

  -- `EncryptMessage`; the buffer is made for the message before the state is looked at.
  unfoldable pub encrypt_message : Bytes → State → Answer Bytes
  unfolding mac_key
  encrypt_message plain s = with_len (len_key + len_nonce + length plain + 16 + len_auth) (
      if not (can_encrypt_message s)
      then panics
      else encrypt_with s.nonce s.local_line_key s.remote_key plain s)

  -- The parts of a message: 32 bytes, 24 bytes, the box, 16 bytes.
  abbrev pub line_part : Bytes → Bytes
  line_part p = take len_key p

  abbrev pub nonce_part : Bytes → Bytes
  nonce_part p = take len_nonce (drop len_key p)

  abbrev pub box_len : Bytes → ℕ
  box_len p = length p - (len_key + len_nonce + len_auth)

  abbrev pub box_part : Bytes → Bytes
  box_part p = take (box_len p) (drop (len_key + len_nonce) p)

  abbrev pub signed_part : Bytes → Bytes
  signed_part p = take (len_key + len_nonce + box_len p) p

  abbrev pub mac_part : Bytes → Bytes
  mac_part p = drop (len_key + len_nonce + box_len p) p

  -- `poly1305.Verify` under the key of the remote key and the nonce.
  abbrev pub verified : Bytes → Bytes → Bytes → Bool
  verified remote local_prv p =
      poly_verify (mac_part p) (signed_part p)
        (sha256 (nonce_part p ++ precompute remote local_prv))

  abbrev pub opened_box : Bytes → Bytes → Option Bytes
  opened_box local_prv p = open_box (box_part p) (nonce_part p) (precompute (line_part p) local_prv)

  -- `DecryptMessage`; a key with no half that is needed panics.
  abbrev pub decrypt_with : Option Bytes → Option Bytes → Bytes → Answer Bytes
  decrypt_with none remote p = panics
  decrypt_with (some prv) none p = panics
  decrypt_with (some prv) (some remote) p =
      if not (verified remote prv p)
      then invalid_message
      else some_or invalid_message (opened_box prv p) (λ out. ok out)

  abbrev pub decrypt_keys : Option Key → Option Key → Bytes → Answer Bytes
  decrypt_keys none remote p = invalid_state
  decrypt_keys (some mine) none p = invalid_state
  decrypt_keys (some mine) (some remote) p = decrypt_with mine.prv_key remote.pub_key p

  unfoldable pub decrypt_message : Option Key → Option Key → Bytes → Answer Bytes
  decrypt_message mine remote p =
      if ltb (length p) (len_key + len_nonce + len_auth)
      then invalid_message
      else decrypt_keys mine remote p

  module _ (truncate : ℕ → ℤ) (j : Json) where
    -- `EncryptHandshake`
    abbrev pub inner_handshake : ℕ → List (ℕ × Bytes) → State → Packet
    inner_handshake at compact s = record {
      header = set_uint32 at_key at (apply_to_header compact empty_header);
      body = public s.local_key;
    }

    unfoldable pub encrypt_handshake : ℕ → List (ℕ × Bytes) → State → Answer Bytes
    unfolding encrypt_message
    encrypt_handshake at compact s =
        then_lob (encode j (inner_handshake at compact s)) (λ plain. encrypt_message plain s)

    -- `DecryptHandshake` behind the box.
    abbrev pub checked : Bytes → Bytes → ℕ → List (ℕ × Bytes) → Bytes → Answer Handshake
    checked prv p at parts remote =
        if not (length remote == len_key)
        then invalid_message
        else if not (verified remote prv p)
        then invalid_message
        else ok (record {
          key = record { pub_key = some remote; prv_key = none };
          line_key = record { pub_key = some (line_part p); prv_key = none };
          parts = parts;
          at = at;
        })

    abbrev pub without_at : Header → Header
    without_at h = record h { extra = delete_extra at_key h.extra }

    abbrev pub read_inner : Bytes → Bytes → Packet → Answer Handshake
    read_inner prv p inner =
        some_or invalid_message (get_uint32 truncate inner.header at_key) (λ at.
          some_or invalid_message (parts_from_header (without_at inner.header))
            (λ parts. checked prv p at parts inner.body))

    abbrev pub decrypt_handshake_with : Option Bytes → Bytes → Answer Handshake
    decrypt_handshake_with none p = panics
    decrypt_handshake_with (some prv) p = some_or invalid_message (opened_box prv p) (λ out.
        with_len (length out)
          (or_else invalid_message (decode j out) (λ inner. read_inner prv p inner)))

    abbrev pub decrypt_handshake_key : Option Key → Bytes → Answer Handshake
    decrypt_handshake_key none p = invalid_state
    decrypt_handshake_key (some mine) p = decrypt_handshake_with mine.prv_key p

    unfoldable pub decrypt_handshake : Option Key → Bytes → Answer Handshake
    decrypt_handshake mine p =
        if ltb (length p) (len_key + len_nonce + len_auth)
        then invalid_message
        else decrypt_handshake_key mine p
