-- ===== src/Cipher/Cs1a/Contract.antt =====
-- crypto/aes, crypto/hmac, crypto/sha256, and the curve of e3x/cipherset/cs1a/eccp and ecdh: what cipher set 1a relies on.
use gogotelehash.Cipher.Cs1a.{Suite}
use gogotelehash.Lob.Packet.{Bytes}
use gogotelehash.Prelude.{ℕ, ◌≡◌, some, length, zero, suc, ◌+◌, ◌≤◌, [], ◌∷◌, ◌++◌}

abbrev pub zeros : ℕ → Bytes
zeros zero = []
zeros (suc n) = 0 ∷ zeros n

-- The counter mode undoes itself and keeps the length; hashes and sums have 32 bytes; a key of HMAC is
-- padded with zeros to 64 bytes.
pub record IsSymmetric (S : Suite) : Type 0 where
  pub ctr_ctr : (k iv m : Bytes) → S.ctr k iv (S.ctr k iv m) ≡ m
  pub length_ctr : (k iv m : Bytes) → length (S.ctr k iv m) ≡ length m
  pub length_sha : (m : Bytes) → length (S.sha256 m) ≡ 32
  pub length_hmac : (k m : Bytes) → length (S.hmac k m) ≡ 32
  pub padded : (k m : Bytes) (n : ℕ) → length k + n ≤ 64 → S.hmac (k ++ zeros n) m ≡ S.hmac k m

-- The private keys `IsScalar`, the numbers from 1 to below the order of the curve, have a point, and of no
-- others is anything said. Both sides of a key exchange compute the same secret, of at most 20 bytes; the
-- point of a key is read back from its 21 bytes.
pub record IsCurve (S : Suite) : Type 1 where
  pub IsScalar : Bytes → Type 0
  pub point_of : Bytes → S.Point
  pub secret : Bytes → Bytes → Bytes
  pub shares : (a b : Bytes) → IsScalar a → IsScalar b → S.shared (point_of a) b ≡ some (secret a b)
  pub agree : (a b : Bytes) → IsScalar a → IsScalar b → secret a b ≡ secret b a
  pub secret_length : (a b : Bytes) → IsScalar a → IsScalar b → length (secret a b) ≤ 20
  pub unmarshal_marshal :
      (a : Bytes) → IsScalar a → S.unmarshal (S.marshal (point_of a)) ≡ some (point_of a)
  pub length_marshal : (a : Bytes) → IsScalar a → length (S.marshal (point_of a)) ≡ 21

-- What messages rely on.
pub record IsSuite (S : Suite) : Type 1 where
  pub symmetric : IsSymmetric S
  pub curve : IsCurve S
