-- ===== src/Cipher/Cs1a/Message/RoundTrip.antt =====
-- e3x/cipherset/cs1a/cs1a_cipher.go: the peer opens the messages and handshakes that were made for it.
use gogotelehash.Cipher.Answer.{Answer, ok}
use gogotelehash.Cipher.Cs1a.{Suite, State}
use gogotelehash.Cipher.Cs1a.Contract.{IsSuite}
use gogotelehash.Cipher.Cs1a.Fold.{fold-returns}
use gogotelehash.Cipher.Cs1a.Message.{encrypt_message, decrypt_message}
use gogotelehash.Lob.Coder
use gogotelehash.Lob.Packet.{Bytes, Packet}
use gogotelehash.Prelude.{◌≡◌, refl, some, length, [], ◌++◌, arith, ◌≤◌}
use gogotelehash.Cipher.Cs1a.Message.Whole.{
  Speaks, Made, pair, half, signed_front, whole, encrypt_message-whole, decrypt_message-whole,
}

-- The sums and keys that the sender computes.
made_of :
    (S : Suite) (laws : IsSuite S) (mine theirs line iv plain : Bytes)
    → laws.curve.IsScalar mine
    → laws.curve.IsScalar theirs
    → laws.curve.IsScalar line
    → length iv ≡ 4
    → (aes : Bytes) × (mac : Bytes) × Made S laws mine theirs line iv plain aes mac
made_of S laws mine theirs line iv plain m t l n =
    let (aes, aes_is, _) =
      fold-returns 1 16 (S.sha256 (laws.curve.secret theirs line)) (omega arith) refl
        (laws.symmetric.length_sha (laws.curve.secret theirs line)) in
    let sum =
      S.hmac (laws.curve.secret theirs mine ++ iv)
        (signed_front S laws mine theirs line iv plain aes []) in
    let (mac, mac_is, size) = fold-returns 3 4 sum (omega arith) refl (
      laws.symmetric.length_hmac (laws.curve.secret theirs mine ++ iv)
        (signed_front S laws mine theirs line iv plain aes [])) in
    (
      aes,
      mac,
      record {
        mine_is = m;
        theirs_is = t;
        line_is = l;
        iv_length = n;
        mac_length = size;
        aes_is = aes_is;
        mac_is = mac_is;
      },
    )

module _ (S : Suite) (laws : IsSuite S) (a : State S) (mine theirs line iv : Bytes)
    (s : Speaks S laws a mine theirs line) (n : length iv ≡ 4) where
  -- The owner of `theirs`, who knows the sender by the public half of `mine`, reads a message of at most
  -- 1471 bytes as it was written.
  decrypt_message-encrypt_message_cs1a :
      (plain : Bytes)
      → length plain ≤ 1471
      → (p : Bytes) × (encrypt_message S iv plain a ≡ ok p)
        × (decrypt_message S (some (pair S laws theirs)) (some (half S laws mine)) p ≡ ok plain)
  decrypt_message-encrypt_message_cs1a plain fits =
      let (aes, mac, made) =
        made_of S laws mine theirs line iv plain s.mine_is s.theirs_is s.line_is n in
      (
        whole S laws mine theirs line iv plain aes mac,
        encrypt_message-whole S laws mine theirs line iv plain aes mac made a s fits,
        decrypt_message-whole S laws mine theirs line iv plain aes mac made,
      )
