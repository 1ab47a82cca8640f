-- ===== src/Cipher/Cs3a/Message/RoundTrip.antt =====
-- e3x/cipherset/cs3a/cs3a_cipher.go: the peer opens the message that was sealed for it.
use gogotelehash.Cipher.Answer.{
  Answer, ok, invalid_message, some_or, is_some, at_key, then_lob, or_else, with_len,
}
use gogotelehash.Cipher.Cs3a.{Nacl, Key, State, bytes_or_nil, public, Handshake}
use gogotelehash.Cipher.Cs3a.Contract.{IsNacl}
use gogotelehash.Cipher.Cs3a.Session.{pair, half}
use gogotelehash.Cipher.Cs3a.Message.{
  mac_key, signed, sealed_to, encrypt_with, encrypt_message, can_encrypt_message, decrypt_message,
  decrypt_with, verified, opened_box, mac_of_base, inner_handshake, encrypt_handshake,
  decrypt_handshake, without_at, ℤ, Json, get_uint32, parts_from_header, checked, read_inner,
  decrypt_handshake_with,
}
use gogotelehash.Lob.Packet.{Bytes, Packet}
use gogotelehash.Prelude.{
  ◌≡◌, ap, some, List, length, ◌+◌, ◌∙◌, ◌++◌, arith, length-append, ◌≤◌, true, false, ◌&&◌, ltb,
  ◌==◌, ℕ, none, ◌<◌, ◌^◌,
}
use gogotelehash.Cipher.Cs3a.Message.Cut.{Cut, cut}
use gogotelehash.Cipher.Inner.{IsJson, AreTexts, inner_lem}
use gogotelehash.Prelude.Map.{lookup}
use gogotelehash.Lob.Coder
use gogotelehash.Lob.Coder.{encode, decode}

-- `a` has the private key `mine` and the public half of `theirs`, a line key, a nonce and the key base
-- of both.
pub record Speaks (N : Nacl) (a : State) (mine theirs : Bytes) : Type 0 where
  pub line : Bytes
  pub local_line : a.local_line_key ≡ some (pair N line)
  pub remote : Key
  pub remote_key : a.remote_key ≡ some remote
  pub public_remote : remote.pub_key ≡ some (N.public_of theirs)
  pub base : a.mac_key_base ≡ some (N.precompute (N.public_of theirs) mine)
  pub nonce : Bytes
  pub has_nonce : a.nonce ≡ some nonce
  pub nonce_length : length nonce ≡ 24

module _ (N : Nacl) (laws : IsNacl N) (a : State) (mine theirs : Bytes)
    (s : Speaks N a mine theirs) where
  abbrev box_key : Bytes
  box_key = N.precompute (N.public_of theirs) s.line

  abbrev sealed_box : Bytes → Bytes
  sealed_box plain = N.seal plain s.nonce box_key

  abbrev front_of : Bytes → Bytes
  front_of plain = N.public_of s.line ++ (s.nonce ++ sealed_box plain)

  abbrev mac_secret : Bytes
  mac_secret = N.sha256 (s.nonce ++ N.precompute (N.public_of theirs) mine)

  abbrev mac_of : Bytes → Bytes
  mac_of plain = N.poly_sum (front_of plain) mac_secret

  -- What `EncryptMessage` gives.
  abbrev sealed : Bytes → Bytes
  sealed plain = front_of plain ++ mac_of plain

  mac_key_is : mac_key N s.nonce a ≡ some mac_secret
  unfolding mac_key
  mac_key_is =
      let right : (length s.nonce == 24) ≡ true = ground (arith, s.nonce_length) in
      rw (right) (ap (mac_of_base N s.nonce) s.base)

  sealed_is : (plain : Bytes) → sealed_to N s.nonce (pair N s.line) s.remote plain ≡ front_of plain
  sealed_is plain =
      ap
        (λ r.
          N.public_of s.line
          ++ (s.nonce ++ N.seal plain s.nonce (N.precompute (bytes_or_nil r) s.line)))
        s.public_remote

  encrypt_with-sealed :
      (plain : Bytes)
      → encrypt_with N a.nonce a.local_line_key a.remote_key plain a ≡ ok (sealed plain)
  encrypt_with-sealed plain =
      (λ i. encrypt_with N (s.has_nonce i) (s.local_line i) (s.remote_key i) plain a)
      ∙ (λ i. signed N (sealed_is plain i) (mac_key_is i))

  encrypt_message-sealed :
      (plain : Bytes) → length plain ≤ 1412 → encrypt_message N plain a ≡ ok (sealed plain)
  unfolding encrypt_message
  encrypt_message-sealed plain fits =
      let room : ltb 1500 (32 + 24 + length plain + 16 + 16) ≡ false = ground arith in
      let ready : can_encrypt_message a ≡ true =
        (λ i. is_some (s.remote_key i) && is_some (s.local_line i)) in
      rw (room, ready) (encrypt_with-sealed plain)

  plain-Cut : (plain : Bytes) → Cut N (N.public_of s.line) s.nonce (sealed_box plain) (mac_of plain)
  plain-Cut plain =
      cut N (N.public_of s.line) s.nonce (sealed_box plain) (mac_of plain)
        (laws.length_public s.line) s.nonce_length (laws.length_sum (front_of plain) mac_secret)

  verified-sealed : (plain : Bytes) → verified N (N.public_of mine) theirs (sealed plain) ≡ true
  verified-sealed plain =
      let c = plain-Cut plain in
      (λ i.
        N.poly_verify (c.mac_is i) (c.signed_is i)
          (N.sha256 (c.nonce_is i ++ laws.agree mine theirs i)))
      ∙ laws.verify_sum (front_of plain) mac_secret

  opened_box-sealed : (plain : Bytes) → opened_box N theirs (sealed plain) ≡ some plain
  opened_box-sealed plain =
      let c = plain-Cut plain in
      (λ i. N.open_box (c.box_is i) (c.nonce_is i) (N.precompute (c.line_is i) theirs))
      ∙ ap (N.open_box (sealed_box plain) s.nonce) (laws.agree s.line theirs)
      ∙ laws.open_seal plain s.nonce box_key

  length-sealed : (plain : Bytes) → length (sealed plain) ≡ 88 + length plain
  length-sealed plain =
      let m =
        laws.length_sum (front_of plain)
          (N.sha256 (s.nonce ++ N.precompute (N.public_of theirs) mine)) in
      omega (
        arith,
        length-append (front_of plain) (mac_of plain),
        m,
        laws.length_public s.line,
        s.nonce_length,
        length-append (N.public_of s.line) (s.nonce ++ sealed_box plain),
        length-append s.nonce (sealed_box plain),
        laws.length_seal plain s.nonce box_key,
      )

  -- The owner of `theirs`, who knows the sender by the public half of `mine`, reads a message of at most
  -- 1412 bytes as it was written, and it is 88 bytes longer on the way.
  decrypt_message-encrypt_message :
      (plain : Bytes) (sender : Key)
      → sender.pub_key ≡ some (N.public_of mine)
      → length plain ≤ 1412
      → (p : Bytes) × (encrypt_message N plain a ≡ ok p)
        × (decrypt_message N (some (pair N theirs)) (some sender) p ≡ ok plain)
        × (length p ≡ 88 + length plain)
  unfolding decrypt_message
  decrypt_message-encrypt_message plain sender known fits =
      let long : ltb (length (sealed plain)) 72 ≡ false = ground (arith, length-sealed plain) in
      let read : decrypt_with N (some theirs) (some (N.public_of mine)) (sealed plain) ≡ ok plain =
        rw (verified-sealed plain)
          (ap (λ o. some_or invalid_message o (λ out. ok out)) (opened_box-sealed plain)) in
      (
        sealed plain,
        encrypt_message-sealed plain fits,
        rw (long) (ap (λ r. decrypt_with N (some theirs) r (sealed plain)) known ∙ read),
        length-sealed plain,
      )

  -- The handshake of the sender at a time and with its parts.
  abbrev told : ℕ → List (ℕ × Bytes) → Handshake
  told at compact = record { key = half N mine; line_key = half N s.line; parts = compact; at = at }

  checked-sealed :
      (truncate : ℕ → ℤ) (j : Json) (at : ℕ) (compact : List (ℕ × Bytes)) (plain remote : Bytes)
      → remote ≡ N.public_of mine
      → checked N truncate j theirs (sealed plain) at compact remote ≡ ok (told at compact)
  checked-sealed truncate j at compact plain remote whose =
      let size : (length (N.public_of mine) == 32) ≡ true =
        ground (arith, laws.length_public mine) in
      ap (checked N truncate j theirs (sealed plain) at compact) whose
      ∙ rw (size, verified-sealed plain)
          (ap
            (λ (l : Bytes).
              ok (record (told at compact) {
                line_key = record { pub_key = some l; prv_key = none };
              }))
            (plain-Cut plain).line_is)

  -- The handshake whose inner packet is encoded and decoded.
  handshake-opens :
      (truncate : ℕ → ℤ) (j : Json) (at : ℕ) (compact parts : List (ℕ × Bytes)) (plain : Bytes)
      (inner : Packet)
      → a.local_key.pub_key ≡ some (N.public_of mine)
      → encode j (inner_handshake N truncate j at compact a) ≡ Coder.ok plain
      → length plain ≤ 1412
      → decode j plain ≡ Coder.ok inner
      → inner.body ≡ public a.local_key
      → get_uint32 truncate inner.header at_key ≡ some at
      → parts_from_header (without_at N truncate j inner.header) ≡ some parts
      → (p : Bytes) × (encrypt_handshake N truncate j at compact a ≡ ok p)
        × (decrypt_handshake N truncate j (some (pair N theirs)) p ≡ ok (told at parts))
  unfolding decrypt_handshake encrypt_handshake
  handshake-opens truncate j at compact parts plain inner own e fits d body is_at has =
      let long : ltb (length (sealed plain)) 72 ≡ false = ground (arith, length-sealed plain) in
      let m : Answer Handshake = invalid_message in
      let p = sealed plain in
      let room : ltb 1500 (length plain) ≡ false = ground (arith, fits) in
      let inner_read : with_len (length plain)
            (or_else m (decode j plain) (read_inner N truncate j theirs p))
          ≡ ok (told at parts) =
        rw (room) (
          ap (λ o. or_else m o (read_inner N truncate j theirs p)) d
          ∙ (λ i. some_or m (is_at i) (λ at.
              some_or m (has i) (λ parts. checked N truncate j theirs p at parts inner.body)))
          ∙ checked-sealed truncate j at parts plain inner.body (body ∙ ap bytes_or_nil own)) in
      let read : decrypt_handshake_with N truncate j (some theirs) p ≡ ok (told at parts) =
        ap
          (λ o. some_or m o (λ out.
            with_len (length out) (or_else m (decode j out) (read_inner N truncate j theirs p))))
          (opened_box-sealed plain)
        ∙ inner_read in
      (
        p,
        ap (λ o. then_lob o (λ plain. encrypt_message N plain a)) e
            ∙ encrypt_message-sealed plain fits,
        rw (long) read,
      )

  -- With the contract of encoding/json, a time that is a uint32 and at most twenty parts with texts of
  -- base 32: `EncryptHandshake` returns a message, and the owner of `theirs`, who knows nothing of the
  -- sender, reads from it the sender's public key, its public line key, the time, and for every id the
  -- part that was put in, and no other.
  pub decrypt_handshake-encrypt_handshake :
      (truncate : ℕ → ℤ) (j : Json) (at : ℕ) (compact : List (ℕ × Bytes))
      → IsJson truncate j
      → a.local_key.pub_key ≡ some (N.public_of mine)
      → at < 2 ^ 32
      → AreTexts compact
      → (p : Bytes) × (y : List (ℕ × Bytes)) × (encrypt_handshake N truncate j at compact a ≡ ok p)
        × (decrypt_handshake N truncate j (some (pair N theirs)) p ≡ ok (told at y))
        × ((k : ℕ) → lookup k y ≡ lookup k compact)
  decrypt_handshake-encrypt_handshake truncate j at compact json own small texts =
      let size : length (public a.local_key) ≡ 32 =
        ap (λ o. length (bytes_or_nil o)) own ∙ laws.length_public mine in
      let i =
        inner_lem truncate j at compact (public a.local_key) json small texts
          (omega (arith, size)) in
      let (p, sent, read) =
        handshake-opens truncate j at compact i.parts i.plain i.inner own i.encodes
          (omega (arith, i.short, size, texts.few)) i.decodes i.same_body i.is_at i.has_parts in
      (p, i.parts, sent, read, i.same_parts)
