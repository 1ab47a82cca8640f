-- ===== src/Lob/RoundTrip/Number.antt =====
-- internal/lob: numbers and lists of them are read back.
use mathlib.Core.List.{append_assoc}
use gogotelehash.Lob.Packet.{Bytes, is_empty}
use gogotelehash.Lob.Scan.{is_space, skip_space, parse_prefix}
use gogotelehash.Lob.Parse.{u32, uint32_loop, parse_uint32, ends_number, finish_number}
use gogotelehash.Lob.Parse.Fields.{miss_loop, parse_miss_list}
use gogotelehash.Lob.Print.{print_digits, print_uint32, print_miss, miss_value}
use gogotelehash.Lob.RoundTrip.Prefix.{skip_space-id, parse_prefix_hit, parse_prefix_miss}
use gogotelehash.Prelude.{
  ℕ, zero, suc, ◌+◌, ◌*◌, ◌/◌, ◌%◌, ◌^◌, ◌<◌, ◌≡◌, ap, ◌∙◌, inl, inr, Bool, true, false, ◌||◌, some,
  List, [], ◌∷◌, ◌++◌, arith, ltb, ◌==◌, Bool-cases, refl, sym, length, All, ◌≤◌, length-append,
}

abbrev pow10 : ℕ → ℕ
pow10 zero = 1
pow10 (suc f) = 10 * pow10 f

-- The bytes behind a number: a comma, or the end of a list or an object.
abbrev pub is_stop : ℕ → Bool
is_stop r = r == b',' || (r == b']' || r == b'}')

uint32_loop_digit :
    (p : Bytes) (idx n d : ℕ) (rest : Bytes)
    → d < 10
    → uint32_loop p idx n ((b'0' + d) ∷ rest) ≡ uint32_loop p (idx + 1) (u32 (n * 10 + d)) rest
unfolding uint32_loop
uint32_loop_digit p idx n d rest h = ground arith

uint32_loop-print_digits :
    (fuel n : ℕ) (p rest : Bytes)
    → n < pow10 fuel
    → 0 < fuel
    → n < 2 ^ 32
    → (k : ℕ) × (uint32_loop p 0 0 (print_digits fuel n ++ rest) ≡ uint32_loop p (k + 1) n rest)
unfolding print_digits
uint32_loop-print_digits zero n p rest h z b = absurd (omega arith)
uint32_loop-print_digits (suc fuel) n p rest h z b = elim (Bool-cases (ltb n 10)) [
  | inl small ↦ (
    0,
    rw small (
        uint32_loop_digit p 0 0 n rest (ground arith)
        ∙ ap (λ (m : ℕ). uint32_loop p 1 m rest) (omega arith)),
  )
  | inr large ↦
      let (k, e) =
        uint32_loop-print_digits fuel (n / 10) p ((b'0' + n % 10) ∷ rest) (omega arith)
          (ground arith) (omega arith) in
      (
        k + 1,
        rw large (
            ap (uint32_loop p 0 0)
              (append_assoc (print_digits fuel (n / 10)) ((b'0' + n % 10) ∷ []) rest)
            ∙ e
            ∙ uint32_loop_digit p (k + 1) (n / 10) (n % 10) rest (omega arith)
            ∙ ap (λ (m : ℕ). uint32_loop p (k + 1 + 1) m rest) (omega arith)),
      )
]

-- A printed number begins with a digit.
print_digits-head :
    (fuel n : ℕ)
    → 0 < fuel
    → n < pow10 fuel
    → (d : ℕ) × (ds : Bytes) × (print_digits fuel n ≡ d ∷ ds) × (is_space d ≡ false)
unfolding print_digits
print_digits-head zero n z h = absurd (omega arith)
print_digits-head (suc fuel) n z h = elim (Bool-cases (ltb n 10)) [
  | inl small ↦ (b'0' + n, [], rw small, ground arith)
  | inr large ↦
      let (d, ds, e, s) = print_digits-head fuel (n / 10) (ground arith) (omega arith) in
      (d, ds ++ (b'0' + n % 10) ∷ [], rw (large, e), s)
]

uint32_loop-stop :
    (p : Bytes) (k n r : ℕ) (rest : Bytes)
    → is_stop r ≡ true
    → uint32_loop p (k + 1) n (r ∷ rest) ≡ some (n, r ∷ rest)
unfolding uint32_loop
uint32_loop-stop p k n r rest h = ground arith

stop-ne-space : (r : ℕ) → is_stop r ≡ true → is_space r ≡ false
stop-ne-space r h = ground arith

stop-ends_number : (r : ℕ) (rest : Bytes) → is_stop r ≡ true → ends_number (r ∷ rest) ≡ true
stop-ends_number r rest h = ground arith

parse_uint32-finish_number :
    (o p q : Bytes) (n : ℕ)
    → skip_space o ≡ p
    → is_empty p ≡ false
    → uint32_loop p 0 0 p ≡ some (n, q)
    → parse_uint32 o ≡ finish_number n (skip_space q)
unfolding parse_uint32
parse_uint32-finish_number o p q n keep full found = rw (keep, full, found) refl

-- The same for the digits at any fuel that is enough.
parse_uint32-print_digits :
    (fuel n r : ℕ) (rest : Bytes)
    → 0 < fuel
    → n < pow10 fuel
    → n < 2 ^ 32
    → is_stop r ≡ true
    → parse_uint32 (print_digits fuel n ++ r ∷ rest) ≡ some (n, r ∷ rest)
parse_uint32-print_digits fuel n r rest z p b h =
    let (d, ds, e, s) = print_digits-head fuel n z p in
    let text = print_digits fuel n ++ r ∷ rest in
    let (k, l) = uint32_loop-print_digits fuel n text (r ∷ rest) p z b in
    let keep =
      ap (λ (x : Bytes). skip_space (x ++ r ∷ rest)) e
      ∙ skip_space-id d (ds ++ r ∷ rest) s
      ∙ sym (ap (λ (x : Bytes). x ++ r ∷ rest) e) in
    let full : is_empty text ≡ false = ap (λ (x : Bytes). is_empty (x ++ r ∷ rest)) e in
    let found = l ∙ uint32_loop-stop text k n r rest h in
    parse_uint32-finish_number text text (r ∷ rest) n keep full found
    ∙ ap (finish_number n) (skip_space-id r rest (stop-ne-space r h))
    ∙ rw (stop-ends_number r rest h) refl

-- `parseUint32` reads a printed number back, in front of a byte that may follow it.
pub parse_uint32-print_uint32 :
    (n r : ℕ) (rest : Bytes)
    → n < 2 ^ 32
    → is_stop r ≡ true
    → parse_uint32 (print_uint32 n ++ r ∷ rest) ≡ some (n, r ∷ rest)
unfolding print_uint32
parse_uint32-print_uint32 n r rest b h =
    parse_uint32-print_digits 10 n r rest (ground arith) (omega arith) b h

-- A printed number in front of other text is not empty.
pub print_uint32-ne-empty :
    (n : ℕ) (rest : Bytes) → n < 2 ^ 32 → is_empty (print_uint32 n ++ rest) ≡ false
unfolding print_uint32
print_uint32-ne-empty n rest b =
    let (d, ds, e, s) = print_digits-head 10 n (ground arith) (omega arith) in
    ap (λ (x : Bytes). is_empty (x ++ rest)) e

abbrev pub Fits : ℕ → Type 0
Fits m = m < 2 ^ 32

-- One round of the loop: a comma goes on, the bracket ends.
miss_round_more :
    (fuel n : ℕ) (acc : List ℕ) (p q rest : Bytes)
    → is_empty p ≡ false
    → parse_uint32 p ≡ some (n, q)
    → parse_prefix q (b',' ∷ []) ≡ (rest, true)
    → miss_loop (suc fuel) acc p ≡ miss_loop fuel (acc ++ n ∷ []) rest
unfolding miss_loop
miss_round_more fuel n acc p q rest e h comma = grind (arith, e, h, comma)

miss_round_last :
    (fuel n : ℕ) (acc : List ℕ) (p q r rest : Bytes)
    → is_empty p ≡ false
    → parse_uint32 p ≡ some (n, q)
    → parse_prefix q (b',' ∷ []) ≡ (r, false)
    → parse_prefix r (b']' ∷ []) ≡ (rest, true)
    → miss_loop (suc fuel) acc p ≡ some (acc ++ n ∷ [], rest)
unfolding miss_loop
miss_round_last fuel n acc p q r rest e h comma bracket = grind (arith, e, h, comma, bracket)

miss_loop_more :
    (fuel m : ℕ) (acc : List ℕ) (rest : Bytes)
    → Fits m
    → miss_loop (suc fuel) acc (print_uint32 m ++ b',' ∷ rest) ≡ miss_loop fuel (acc ++ m ∷ []) rest
miss_loop_more fuel m acc rest b =
    miss_round_more fuel m acc (print_uint32 m ++ b',' ∷ rest) (b',' ∷ rest) rest
      (print_uint32-ne-empty m (b',' ∷ rest) b) (parse_uint32-print_uint32 m b',' rest b refl)
      (parse_prefix_hit b',' rest refl)

miss_loop_last :
    (fuel m : ℕ) (acc : List ℕ) (rest : Bytes)
    → Fits m
    → miss_loop (suc fuel) acc (print_uint32 m ++ b']' ∷ rest) ≡ some (acc ++ m ∷ [], rest)
miss_loop_last fuel m acc rest b =
    miss_round_last fuel m acc (print_uint32 m ++ b']' ∷ rest) (b']' ∷ rest) (b']' ∷ rest) rest
      (print_uint32-ne-empty m (b']' ∷ rest) b) (parse_uint32-print_uint32 m b']' rest b refl)
      (parse_prefix_miss b']' b',' rest [] refl (ground arith)) (parse_prefix_hit b']' rest refl)

-- The loop reads a printed list, at any fuel from its length on.
miss_loop-print_miss :
    (fuel m : ℕ) (l acc : List ℕ) (rest : Bytes)
    → length l < fuel
    → Fits m
    → All Fits l
    → miss_loop fuel acc ((print_uint32 m ++ print_miss true l) ++ b']' ∷ rest)
      ≡ some (acc ++ m ∷ l, rest)
unfolding print_miss
miss_loop-print_miss zero m l acc rest f b h = absurd (omega arith)
miss_loop-print_miss (suc fuel) m [] acc rest f b h =
    ap (miss_loop (suc fuel) acc) (append_assoc (print_uint32 m) [] (b']' ∷ rest))
    ∙ miss_loop_last fuel m acc rest b
miss_loop-print_miss (suc fuel) m (x ∷ l) acc rest f b (bx, h) =
    ap (miss_loop (suc fuel) acc)
      (append_assoc (print_uint32 m) (b',' ∷ (print_uint32 x ++ print_miss true l)) (b']' ∷ rest))
    ∙ miss_loop_more fuel m acc ((print_uint32 x ++ print_miss true l) ++ b']' ∷ rest) b
    ∙ miss_loop-print_miss fuel x l (acc ++ m ∷ []) rest (omega arith) bx h
    ∙ ap (λ (a : List ℕ). some (a, rest)) (append_assoc acc (m ∷ []) (x ∷ l))

-- Each number of the list but the first is behind a comma.
length-print_miss : (l : List ℕ) → length l ≤ length (print_miss true l)
unfolding print_miss
length-print_miss [] = omega arith
length-print_miss (m ∷ l) =
    let behind = length-print_miss l in
    let sum = length-append (print_uint32 m) (print_miss true l) in omega arith

miss_list_fuel :
    (m : ℕ) (l : List ℕ) (rest : Bytes)
    → length l < suc (length ((print_uint32 m ++ print_miss true l) ++ b']' ∷ rest))
miss_list_fuel m l rest =
    let a = length-append (print_uint32 m ++ print_miss true l) (b']' ∷ rest) in
    let b = length-append (print_uint32 m) (print_miss true l) in
    let c = length-print_miss l in omega arith

parse_miss_list-miss_loop :
    (p : Bytes) → parse_miss_list (b'[' ∷ p) ≡ miss_loop (suc (length p)) [] p
unfolding parse_miss_list
parse_miss_list-miss_loop p = let hit = parse_prefix_hit b'[' p refl in rw (hit) refl

miss_value-text :
    (m : ℕ) (l : List ℕ) (rest : Bytes)
    → miss_value (m ∷ l) ++ rest ≡ b'[' ∷ ((print_uint32 m ++ print_miss true l) ++ b']' ∷ rest)
unfolding print_miss
miss_value-text m l rest =
    ap (λ (x : Bytes). b'[' ∷ x)
      (append_assoc (print_uint32 m ++ print_miss true l) (b']' ∷ []) rest)

-- What the encoder writes for a list of uint32 that is not empty is read back by the parser of
-- `miss` as the list, whatever follows.
pub parse_miss_list-miss_value :
    (m : ℕ) (l : List ℕ) (rest : Bytes)
    → Fits m
    → All Fits l
    → parse_miss_list (miss_value (m ∷ l) ++ rest) ≡ some (m ∷ l, rest)
parse_miss_list-miss_value m l rest b h =
    let text = (print_uint32 m ++ print_miss true l) ++ b']' ∷ rest in
    ap parse_miss_list (miss_value-text m l rest)
    ∙ parse_miss_list-miss_loop text
    ∙ miss_loop-print_miss (suc (length text)) m l [] rest (miss_list_fuel m l rest) b h
