-- ===== src/Lob/Extra.antt =====
-- internal/lob/coder.go: the accessors of the header fields that the header does not know.
use gogotelehash.Lob.Packet.{
  Bytes, Header, Value, Values, ℤ, pos, negsuc, bool, string, float64, int, uint32s, array, nil,
  cons,
}
use gogotelehash.Lob.Parse.Fields.{bytes_eq, set_extra}
use gogotelehash.Prelude.{
  ℕ, ◌≡◌, arith, ◌%◌, ◌^◌, refl, ap, Bool, true, Option, none, some, List, [], ◌∷◌, if◌then◌else◌,
  ◌<◌, sym, ◌∙◌, inl, inr, Bool-cases,
}
use mathlib.Core.Bool.{true≢false}

-- The value of the key in the map.
unfoldable pub find_extra : Bytes → List (Bytes × Value) → Option Value
find_extra k [] = none
find_extra k ((key, v) ∷ m) = let rest = find_extra k m in if bytes_eq key k then some v else rest

-- `Get`; a nil map is the empty one.
unfoldable pub get : Header → Bytes → Option Value
get h k = find_extra k h.extra

-- `Set`.
unfoldable pub set : Bytes → Value → Header → Header
set k v h = record h { extra = set_extra k v h.extra }

abbrev pub as_string : Option Value → Option Bytes
as_string (some (string s)) = some s
as_string _ = none

abbrev pub as_bool : Option Value → Option Bool
as_bool (some (bool b)) = some b
as_bool _ = none

unfoldable pub get_string : Header → Bytes → Option Bytes
get_string h k = as_string (get h k)

unfoldable pub set_string : Bytes → Bytes → Header → Header
set_string k v h = set k (string v) h

unfoldable pub get_bool : Header → Bytes → Option Bool
get_bool h k = as_bool (get h k)

unfoldable pub set_bool : Bytes → Bool → Header → Header
set_bool k v h = set k (bool v) h

-- `uint32(x)` of an int that is not negative.
abbrev pub to_uint32 : Option ℤ → Option ℕ
to_uint32 (some (pos n)) = some (n % 2 ^ 32)
to_uint32 (some (negsuc n)) = none
to_uint32 none = none

-- The elements that `GetUint32Slice` takes: ints that are not negative.
unfoldable pub as_uint32s : Values → Option (List ℕ)
as_uint32s nil = some []
as_uint32s (cons (int (pos n)) l) = elim (as_uint32s l) [
  | none ↦ none
  | some z ↦ some (n % 2 ^ 32 ∷ z)
]
as_uint32s (cons _ l) = none

abbrev pub as_uint32_slice : Option Value → Option (List ℕ)
as_uint32_slice (some (array l)) = as_uint32s l
as_uint32_slice _ = none

unfoldable pub get_uint32_slice : Header → Bytes → Option (List ℕ)
get_uint32_slice h k = as_uint32_slice (get h k)

unfoldable pub set_uint32_slice : Bytes → List ℕ → Header → Header
set_uint32_slice k l h = set k (uint32s l) h

-- `int(x)` of a float64, from its IEEE pattern.
module _ (truncate : ℕ → ℤ) where
  abbrev pub as_int : Option Value → Option ℤ
  as_int (some (int n)) = some n
  as_int (some (float64 x)) = some (truncate x)
  as_int _ = none

  unfoldable pub get_int : Header → Bytes → Option ℤ
  get_int h k = as_int (get h k)

  unfoldable pub get_uint32 : Header → Bytes → Option ℕ
  unfolding get_int
  get_uint32 h k = to_uint32 (get_int h k)

unfoldable pub set_int : Bytes → ℤ → Header → Header
set_int k v h = set k (int v) h

unfoldable pub set_uint32 : Bytes → ℕ → Header → Header
unfolding set_int
set_uint32 k v h = set_int k (pos v) h

pub bytes_eq_refl : (k : Bytes) → bytes_eq k k ≡ true
unfolding bytes_eq
bytes_eq_refl [] = refl
bytes_eq_refl (x ∷ k) = ground (arith, bytes_eq_refl k)

pub bytes_eq_sound : (a b : Bytes) → bytes_eq a b ≡ true → a ≡ b
unfolding bytes_eq
bytes_eq_sound [] [] h = refl
bytes_eq_sound [] (y ∷ b) h = absurd (ground arith)
bytes_eq_sound (x ∷ a) [] h = absurd (ground arith)
bytes_eq_sound (x ∷ a) (y ∷ b) h =
    let head : x ≡ y = ground arith in
    let rest : bytes_eq a b ≡ true = ground arith in
    ap (λ (z : ℕ). z ∷ a) head ∙ ap (λ (l : Bytes). y ∷ l) (bytes_eq_sound a b rest)

-- Two keys that equal a third are equal.
bytes_eq_both : (a b k : Bytes) → bytes_eq a k ≡ true → bytes_eq b k ≡ true → bytes_eq a b ≡ true
bytes_eq_both a b k h g = ap (bytes_eq a) (bytes_eq_sound b k g) ∙ h

find_extra-set_extra :
    (k key : Bytes) (v : Value) (m : List (Bytes × Value))
    → find_extra k (set_extra key v m) ≡ (if bytes_eq key k then some v else find_extra k m)
unfolding find_extra set_extra
find_extra-set_extra k key v [] = refl
find_extra-set_extra k key v ((x, y) ∷ m) = elim (Bool-cases (bytes_eq x key)) [
  | inl same ↦
      let e = ap (λ (z : Bytes). bytes_eq z k) (bytes_eq_sound x key same) in
      rw (same) (elim (Bool-cases (bytes_eq key k)) [
        | inl hit ↦ rw (hit) refl
        | inr miss ↦ rw (miss, e ∙ miss) refl
      ])
  | inr other ↦ rw (other) (elim (Bool-cases (bytes_eq x k)) [
    | inr miss ↦ rw (miss) (find_extra-set_extra k key v m)
    | inl hit ↦ elim (Bool-cases (bytes_eq key k)) [
      | inr free ↦ rw (hit, free) refl
      | inl taken ↦ absurd (true≢false (sym (bytes_eq_both x key k hit taken) ∙ other))
    ]
  ])
]

-- What is found under a key, once a value is set under a key: that value if the keys are equal, and
-- what was found before if they are not.
get-set :
    (k key : Bytes) (v : Value) (h : Header)
    → get (set key v h) k ≡ (if bytes_eq key k then some v else get h k)
unfolding get set
get-set k key v h = find_extra-set_extra k key v h.extra

pub get-set_same : (k : Bytes) (v : Value) (h : Header) → get (set k v h) k ≡ some v
get-set_same k v h = get-set k k v h ∙ rw (bytes_eq_refl k) refl

-- A string, a Boolean, an int or a uint32 that is set under a key is got back from it with its own
-- getter, whatever the conversion of floats is.
typed-get-set :
    (truncate : ℕ → ℤ) (k s : Bytes) (b : Bool) (i : ℤ) (n : ℕ) (h : Header)
    → n < 2 ^ 32
    → (get_string (set_string k s h) k ≡ some s)
      × (get_bool (set_bool k b h) k ≡ some b)
      × (get_int truncate (set_int k i h) k ≡ some i)
      × (get_uint32 truncate (set_uint32 k n h) k ≡ some n)
unfolding get_string set_string get_bool set_bool get_int set_int get_uint32 set_uint32
typed-get-set truncate k s b i n h small = (
  ap as_string (get-set_same k (string s) h),
  ap as_bool (get-set_same k (bool b) h),
  ap (as_int truncate) (get-set_same k (int i) h),
  ap (λ (o : Option Value). to_uint32 (as_int truncate o)) (get-set_same k (int (pos n)) h)
      ∙ ap some (omega arith),
)

-- `GetUint32Slice` finds nothing under a key right after `SetUint32Slice` has set it, whatever the
-- numbers are.
get_uint32_slice-set_uint32_slice :
    (k : Bytes) (l : List ℕ) (h : Header) → get_uint32_slice (set_uint32_slice k l h) k ≡ none
unfolding get_uint32_slice set_uint32_slice
get_uint32_slice-set_uint32_slice k l h = ap as_uint32_slice (get-set_same k (uint32s l) h)
