-- ===== src/Hashname/Base32/RoundTrip.antt =====
-- internal/util/base32util: what is encoded is valid, and is decoded again.
use gogotelehash.Hashname.Base32.{
  replicate, remove_padding, cons_trimmed, padded, add_padding, upper, lower, groups, ungroup,
  symbol, symbol_value, symbol_values, ungrouped, std_encode, std_decode, encode_to_string,
  decode_string, valid_string,
}
use gogotelehash.Lob.Packet.{Bytes}
use gogotelehash.Prelude.{
  ◌+◌, ◌-◌, ◌*◌, ◌/◌, ◌<◌, ◌≡◌, refl, some, [], ◌∷◌, arith, length, All, ℕ, zero, suc, ◌%◌, ap, ◌∙◌,
  ◌≢◌, inl, inr, true, false, ◌&&◌, ◌||◌, ◌++◌, map, ltb, leb, ◌==◌, if◌then◌else◌, if_intro,
  Bool-cases, length-append,
}

abbrev pub AreBytes : Bytes → Type 0
AreBytes l = All (λ b. b < 256) l

abbrev AreGroups : Bytes → Type 0
AreGroups l = All (λ g. g < 32) l

groups_bounds : (l : Bytes) → AreBytes l → AreGroups (groups l)
unfolding groups
groups_bounds [] h = tt
groups_bounds (a ∷ []) h = omega arith
groups_bounds (a ∷ b ∷ []) h = omega arith
groups_bounds (a ∷ b ∷ c ∷ []) h = omega arith
groups_bounds (a ∷ b ∷ c ∷ d ∷ []) h = omega arith
groups_bounds (a ∷ b ∷ c ∷ d ∷ e ∷ rest) h = (
  omega arith,
  (
    omega arith,
    (
      omega arith,
      (
        omega arith,
        (omega arith, (omega arith, (omega arith, (omega arith, groups_bounds rest h.1.1.1.1.1)))),
      ),
    ),
  ),
)

ungroup-groups : (l : Bytes) → AreBytes l → ungroup (groups l) ≡ some l
unfolding groups ungroup
ungroup-groups [] h = refl
ungroup-groups (a ∷ []) h = ground arith
ungroup-groups (a ∷ b ∷ []) h = ground arith
ungroup-groups (a ∷ b ∷ c ∷ []) h = ground arith
ungroup-groups (a ∷ b ∷ c ∷ d ∷ []) h = ground arith
ungroup-groups (a ∷ b ∷ c ∷ d ∷ e ∷ rest) h = rw (ungroup-groups rest h.1.1.1.1.1) (ground arith)

-- The length of the groups: eight for five bytes.
length-groups : (l : Bytes) → length (groups l) ≡ (length l * 8 + 4) / 5
unfolding groups
length-groups [] = omega arith
length-groups (a ∷ []) = omega arith
length-groups (a ∷ b ∷ []) = omega arith
length-groups (a ∷ b ∷ c ∷ []) = omega arith
length-groups (a ∷ b ∷ c ∷ d ∷ []) = omega arith
length-groups (a ∷ b ∷ c ∷ d ∷ e ∷ rest) = omega (arith, length-groups rest)

module _ (g : ℕ) (small : g < 32) where
  symbol_value-symbol : symbol_value (symbol g) ≡ some g
  symbol_value-symbol = ground arith

  upper-lower-symbol : upper (lower (symbol g)) ≡ symbol g
  upper-lower-symbol = ground arith

  symbol-ne-pad : symbol g ≢ b'='
  symbol-ne-pad h = ground arith

  symbol_valid :
      ((leb b'a' (lower (symbol g)) && leb (lower (symbol g)) b'z')
        || (leb b'2' (lower (symbol g)) && leb (lower (symbol g)) b'7'))
      ≡ true
  symbol_valid = ground arith

symbol_values-map : (l : Bytes) → AreGroups l → symbol_values (map symbol l) ≡ some l
unfolding symbol_values
symbol_values-map [] h = refl
symbol_values-map (g ∷ rest) h = rw (symbol_values-map rest h.1, symbol_value-symbol g h.0) refl

upper-lower-symbols :
    (l : Bytes) → AreGroups l → map upper (map lower (map symbol l)) ≡ map symbol l
upper-lower-symbols [] h = refl
upper-lower-symbols (g ∷ rest) h =
    ap (λ c. c ∷ map upper (map lower (map symbol rest))) (upper-lower-symbol g h.0)
    ∙ ap (λ t. symbol g ∷ t) (upper-lower-symbols rest h.1)

symbols_unpadded : (l : Bytes) → AreGroups l → All (λ c. c ≢ b'=') (map symbol l)
symbols_unpadded [] h = tt
symbols_unpadded (g ∷ rest) h = (symbol-ne-pad g h.0, symbols_unpadded rest h.1)

symbols_valid : (l : Bytes) → AreGroups l → valid_string (map lower (map symbol l)) ≡ true
unfolding valid_string
symbols_valid [] h = refl
symbols_valid (g ∷ rest) h = rw (symbol_valid g h.0) (symbols_valid rest h.1)

cons_trimmed-keeps : (c : ℕ) (s : Bytes) → c ≢ b'=' → cons_trimmed c s ≡ c ∷ s
cons_trimmed-keeps c [] h = ground arith
cons_trimmed-keeps c (d ∷ rest) h = refl

remove_padding-replicate : (n : ℕ) → remove_padding (replicate n b'=') ≡ []
unfolding remove_padding
remove_padding-replicate zero = refl
remove_padding-replicate (suc n) = rw (remove_padding-replicate n) refl

remove_padding-append :
    (s : Bytes) (n : ℕ) → All (λ c. c ≢ b'=') s → remove_padding (s ++ replicate n b'=') ≡ s
unfolding remove_padding
remove_padding-append [] n h = remove_padding-replicate n
remove_padding-append (c ∷ rest) n h =
    rw (remove_padding-append rest n h.1) (cons_trimmed-keeps c rest h.0)

remove_padding-id : (s : Bytes) → All (λ c. c ≢ b'=') s → remove_padding s ≡ s
unfolding remove_padding
remove_padding-id [] h = refl
remove_padding-id (c ∷ rest) h = rw (remove_padding-id rest h.1) (cons_trimmed-keeps c rest h.0)

remove_padding-padded : (s : Bytes) → All (λ c. c ≢ b'=') s → remove_padding (padded s) ≡ s
remove_padding-padded s h =
    if_intro (λ t. remove_padding t ≡ s) (length s % 8 == 0) (λ _. remove_padding-id s h)
      (λ _. remove_padding-append s (8 - length s % 8) h)

length-replicate : (n c : ℕ) → length (replicate n c) ≡ n
length-replicate zero c = refl
length-replicate (suc n) c = omega (arith, length-replicate n c)

length-padded :
    (s : Bytes)
    → length (padded s) ≡ (if length s % 8 == 0 then length s else length s + (8 - length s % 8))
length-padded s = elim (Bool-cases (length s % 8 == 0)) [
  | inl whole ↦ rw whole refl
  | inr part ↦ rw part (
      length-append s (replicate (8 - length s % 8) b'=')
      ∙ ap (λ n. length s + n) (length-replicate (8 - length s % 8) b'='))
]

-- The whole blocks pass both checks of the decoder.
std_decode-padded :
    (s : Bytes)
    → All (λ c. c ≢ b'=') s
    → (length s % 8 ≢ 1)
    → std_decode (padded s) ≡ ungrouped (symbol_values s)
unfolding std_decode
std_decode-padded s h k =
    let len = length-padded s in
    let whole : (length (padded s) % 8 == 0) ≡ true = ground (arith, len) in
    let few : ltb 6 (length (padded s) - length s) ≡ false = ground (arith, len) in
    rw (remove_padding-padded s h, whole, few) refl

length-map : (f : ℕ → ℕ) (l : Bytes) → length (map f l) ≡ length l
length-map f [] = refl
length-map f (x ∷ rest) = omega (arith, length-map f rest)

-- The text without padding.
encode_to_string-symbols :
    (src : Bytes) → AreBytes src → encode_to_string src ≡ map lower (map symbol (groups src))
unfolding encode_to_string std_encode
encode_to_string-symbols src h =
    ap (map lower) (remove_padding-padded _ (symbols_unpadded _ (groups_bounds src h)))

-- Bytes that are encoded are decoded again, and the text is valid: small letters and the digits from
-- 2 to 7, as many as the bits need.
pub decode_string-encode_to_string :
    (src : Bytes)
    → All (λ b. b < 256) src
    → (decode_string (encode_to_string src) ≡ some src)
      × (valid_string (encode_to_string src) ≡ true)
      × (length (encode_to_string src) ≡ (length src * 8 + 4) / 5)
unfolding decode_string add_padding
decode_string-encode_to_string src h =
    let gs = groups src in
    let small = groups_bounds src h in
    let text = encode_to_string-symbols src h in
    let bare = symbols_unpadded gs small in
    let len = length-map symbol gs ∙ length-groups src in
    (
      rw
          (
            text,
            upper-lower-symbols gs small,
            remove_padding-id (map symbol gs) bare,
            std_decode-padded (map symbol gs) bare (λ one. omega (arith, len)),
            symbol_values-map gs small,
          )
          (ungroup-groups src h),
      rw text (symbols_valid gs small),
      rw text (length-map lower (map symbol gs) ∙ len),
    )
