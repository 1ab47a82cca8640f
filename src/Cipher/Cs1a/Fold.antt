-- ===== src/Cipher/Cs1a/Fold.antt =====
-- e3x/cipherset/cs1a/fold.go: a hash is folded to a shorter one.
use gogotelehash.Lob.Packet.{Bytes}
use gogotelehash.Prelude.{
  ℕ, ◌≡◌, refl, ap, [], ◌∷◌, Option, none, some, length, ◌==◌, if◌then◌else◌, zero, suc, ◌+◌, ◌*◌,
  ◌/◌, ◌%◌, ◌≤◌, ◌∙◌, true, not, arith, ltb, take, drop, length-take, ◌<◌, false,
}

-- `x ^ y` of numbers of `bits` bits.
abbrev pub xor : ℕ → ℕ → ℕ → ℕ
xor zero x y = 0
xor (suc bits) x y = let low = if x % 2 == y % 2 then 0 else 1 in low + 2 * xor bits (x / 2) (y / 2)

-- The loop of `foldHalf`, over as many bytes as the first half has.
abbrev pub xor_all : Bytes → Bytes → Bytes
xor_all [] q = []
xor_all (x ∷ p) [] = x ∷ p
xor_all (x ∷ p) (y ∷ q) = xor 8 x y ∷ xor_all p q

-- `foldHalf`; `none` is a panic, here and below.
unfoldable pub fold_half : Bytes → Option Bytes
fold_half p =
    if length p % 2 == 0
    then some (xor_all (take (length p / 2) p) (drop (length p / 2) p))
    else none

-- The loop of `fold`, on fuel; a loop that ends takes fewer rounds than there are bytes.
unfoldable pub fold_loop : ℕ → ℕ → Bytes → Option Bytes
fold_loop zero l p = if ltb l (length p) then none else some p
fold_loop (suc fuel) l p =
    if ltb l (length p)
    then elim (fold_half p) [ none ↦ none | some q ↦ fold_loop fuel l q ]
    else some p

unfoldable pub fold : Bytes → ℕ → Option Bytes
unfolding fold_loop
fold p l =
    if not (length p % 2 == 0)
    then none
    else if not (l % 2 == 0)
    then none
    else fold_loop (length p) l p

length-xor_all : (p q : Bytes) → length (xor_all p q) ≡ length p
length-xor_all [] q = refl
length-xor_all (x ∷ p) [] = refl
length-xor_all (x ∷ p) (y ∷ q) = ap suc (length-xor_all p q)

-- An even length is halved.
fold_half-even :
    (p : Bytes) (n : ℕ) → length p ≡ n * 2 → (q : Bytes) × (fold_half p ≡ some q) × (length q ≡ n)
unfolding fold_half
fold_half-even p n h =
    let even : (length p % 2 == 0) ≡ true = ground (arith, h) in
    let half = take (length p / 2) p in
    (
      xor_all half (drop (length p / 2) p),
      rw (even) refl,
      length-xor_all half (drop (length p / 2) p)
          ∙ length-take (length p / 2) p (omega arith)
          ∙ omega (arith, h),
    )

-- `l` times two, `k` times.
abbrev pub doubled : ℕ → ℕ → ℕ
doubled zero l = l
doubled (suc k) l = doubled k l * 2

doubled-above : (k l : ℕ) → 0 < l → (l ≤ doubled k l) × (k < doubled k l)
doubled-above zero l h = (omega arith, omega arith)
doubled-above (suc k) l h =
    let (above, more) = doubled-above k l h in (omega (arith, above), omega (arith, more))

fold_loop-short : (fuel l : ℕ) (p : Bytes) → length p ≡ l → fold_loop fuel l p ≡ some p
unfolding fold_loop
fold_loop-short zero l p h =
    let short : ltb l (length p) ≡ false = ground (arith, h) in rw (short) refl
fold_loop-short (suc fuel) l p h =
    let short : ltb l (length p) ≡ false = ground (arith, h) in rw (short) refl

fold_loop-doubled :
    (k fuel l : ℕ) (p : Bytes)
    → 0 < l
    → k ≤ fuel
    → length p ≡ doubled k l
    → (q : Bytes) × (fold_loop fuel l p ≡ some q) × (length q ≡ l)
unfolding fold_loop
fold_loop-doubled zero fuel l p pos b h = (p, fold_loop-short fuel l p h, h)
fold_loop-doubled (suc k) zero l p pos b h = absurd (omega arith)
fold_loop-doubled (suc k) (suc fuel) l p pos b h =
    let (q, halved, size) = fold_half-even p (doubled k l) h in
    let (r, done, right) = fold_loop-doubled k fuel l q pos (omega arith) size in
    let long : ltb l (length p) ≡ true = ground (arith, h, doubled-above k l pos) in
    (r, rw (long, halved) done, right)

doubled-even :
    (k l : ℕ) (p : Bytes) → l % 2 ≡ 0 → length p ≡ doubled k l → (length p % 2 == 0) ≡ true
doubled-even zero l p even h = ground (arith, h)
doubled-even (suc k) l p even h = ground (arith, h)

-- Bytes whose number is `l` doubled `k` times, for an even `l` that is not 0, are folded to `l`
-- bytes: no half has an odd length, and the loop ends.
pub fold-returns :
    (k l : ℕ) (p : Bytes)
    → 0 < l
    → l % 2 ≡ 0
    → length p ≡ doubled k l
    → (q : Bytes) × (fold p l ≡ some q) × (length q ≡ l)
unfolding fold
fold-returns k l p pos even h =
    let (q, done, size) =
      fold_loop-doubled k (length p) l p pos (omega (arith, h, doubled-above k l pos)) h in
    let whole : (length p % 2 == 0) ≡ true = doubled-even k l p even h in
    let fine : (l % 2 == 0) ≡ true = ground arith in (q, rw (whole, fine) done, size)
