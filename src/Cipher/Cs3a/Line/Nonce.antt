-- ===== src/Cipher/Cs3a/Line/Nonce.antt =====
-- e3x/cipherset/cs3a/cs3a_cipher.go: no nonce is used for two packets.
use gogotelehash.Cipher.Answer.{ok}
use gogotelehash.Cipher.Cs3a.{Nacl, State}
use gogotelehash.Cipher.Cs3a.Line.{encrypt_packet}
use gogotelehash.Lob.Packet.{Bytes, Packet}
use gogotelehash.Lob.Parse.{Json}
use gogotelehash.Prelude.{ℕ, suc, ◌≡◌, length, ◌+◌, ◌*◌, ◌^◌, [], ◌∷◌}

-- `s'` is `s` after `n` packets.
pub data Sends (N : Nacl) (j : Json) (s : State) : ℕ → State → Type 0 where
  none_sent : Sends N j s 0 s
  one_more :
      (n : ℕ) (pkt outer : Packet) (t u : State)
      → Sends N j s n t
      → encrypt_packet N j pkt t ≡ ok (u, outer)
      → Sends N j s (suc n) u

-- Eight bytes give back the number.
uint64_of : Bytes → ℕ
uint64_of [] = 0
uint64_of (x ∷ rest) = x * 256 ^ length rest + uint64_of rest
