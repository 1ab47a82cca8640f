-- ===== src/Cipher/Cs3a/Contract.antt =====
-- golang.org/x/crypto: what cipher set 3a relies on.
use gogotelehash.Cipher.Cs3a.{Nacl}
use gogotelehash.Lob.Packet.{Bytes}
use gogotelehash.Prelude.{◌+◌, ◌≡◌, true, some, length}

-- Both sides of a key exchange compute the same key; a box opens under the key and nonce that it was
-- sealed with and is 16 bytes longer; a sum verifies and has 16 bytes; a hash has 32.
pub record IsNacl (N : Nacl) : Type 0 where
  pub agree : (a b : Bytes) → N.precompute (N.public_of a) b ≡ N.precompute (N.public_of b) a
  pub open_seal : (m n k : Bytes) → N.open_box (N.seal m n k) n k ≡ some m
  pub length_seal : (m n k : Bytes) → length (N.seal m n k) ≡ length m + 16
  pub verify_sum : (p k : Bytes) → N.poly_verify (N.poly_sum p k) p k ≡ true
  pub length_sum : (p k : Bytes) → length (N.poly_sum p k) ≡ 16
  pub length_sha : (p : Bytes) → length (N.sha256 p) ≡ 32
  pub length_public : (a : Bytes) → length (N.public_of a) ≡ 32
