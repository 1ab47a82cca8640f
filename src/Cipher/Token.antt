-- ===== src/Cipher/Token.antt =====
-- e3x/cipherset/cipher_set.go: the token by which an endpoint finds the exchange of a message.
use gogotelehash.Lob.Packet.{Bytes}
use gogotelehash.Prelude.{ℕ, ◌&&◌, [], ◌∷◌, leb, ◌==◌, if◌then◌else◌, length, take, drop}

abbrev pub len_token : ℕ
len_token = 16

abbrev pub zero_token : Bytes
zero_token = 0 ∷ 0 ∷ 0 ∷ 0 ∷ 0 ∷ 0 ∷ 0 ∷ 0 ∷ 0 ∷ 0 ∷ 0 ∷ 0 ∷ 0 ∷ 0 ∷ 0 ∷ 0 ∷ []

-- `sha256.Sum256(p[:16])`, cut to a token.
abbrev pub token_of : (Bytes → Bytes) → Bytes → Bytes
token_of sha p = take len_token (sha (take len_token p))

-- `ExtractToken`: behind the two bytes that say how long the header is, `rest`.
abbrev pub token_behind : (Bytes → Bytes) → ℕ → ℕ → Bytes → Bytes
token_behind sha a b rest =
    if leb 17 (length rest) && (a == 0 && b == 1)
    then token_of sha (drop 1 rest)
    else if leb 16 (length rest) && (a == 0 && b == 0)
    then take len_token rest
    else zero_token

unfoldable pub extract_token : (Bytes → Bytes) → Bytes → Bytes
extract_token sha [] = zero_token
extract_token sha (a ∷ []) = zero_token
extract_token sha (a ∷ b ∷ rest) = token_behind sha a b rest
