-- ===== src/Lob/RoundTrip/Prefix.antt =====
-- internal/lob/header_coder.go: `skipSpace` and `parsePrefix` where no space is in front.
use gogotelehash.Lob.Packet.{Bytes}
use gogotelehash.Lob.Scan.{is_space, skip_space, after_prefix, parse_prefix}
use gogotelehash.Prelude.{ℕ, ◌≡◌, refl, ◌≢◌, true, false, some, [], ◌∷◌, ◌++◌, arith}

pub skip_space-id : (r : ℕ) (p : Bytes) → is_space r ≡ false → skip_space (r ∷ p) ≡ r ∷ p
unfolding skip_space
skip_space-id r p h = ground arith

pub after_prefix_hit : (pre rest : Bytes) → after_prefix (pre ++ rest) pre ≡ some rest
unfolding after_prefix
after_prefix_hit [] rest = refl
after_prefix_hit (x ∷ pre) rest = ground (arith, after_prefix_hit pre rest)

-- A prefix of one byte.
pub parse_prefix_hit :
    (x : ℕ) (p : Bytes) → is_space x ≡ false → parse_prefix (x ∷ p) (x ∷ []) ≡ (p, true)
unfolding parse_prefix
parse_prefix_hit x p h = ground (arith, skip_space-id x p h)

pub parse_prefix_miss :
    (r x : ℕ) (p pre : Bytes)
    → is_space r ≡ false
    → r ≢ x
    → parse_prefix (r ∷ p) (x ∷ pre) ≡ (r ∷ p, false)
unfolding parse_prefix
parse_prefix_miss r x p pre h n = ground (arith, skip_space-id r p h)
