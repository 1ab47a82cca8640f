-- ===== src/Lob/Scan.antt =====
-- internal/lob/header_coder.go: the scanning functions. A slice is a list, and `p[i:]` is `drop i p`.
use gogotelehash.Lob.Packet.{Bytes}
use gogotelehash.Prelude.{
  ℕ, zero, suc, ◌+◌, Bool, true, false, not, ◌&&◌, ◌||◌, Option, none, some, [], ◌∷◌, ◌==◌,
  if◌then◌else◌, length, take, drop,
}

abbrev pub is_space : ℕ → Bool
is_space r = r == b' ' || (r == b'\t' || r == b'\n')

-- `for idx, r := range p { … }` of `scanSpace`: 0 if there is nothing but space.
unfoldable pub scan_space_from : ℕ → Bytes → ℕ
scan_space_from idx [] = 0
scan_space_from idx (r ∷ p) =
    let rest = scan_space_from (idx + 1) p in if not (is_space r) then idx else rest

unfoldable pub scan_space : Bytes → ℕ
unfolding scan_space_from
scan_space p = scan_space_from 0 p

unfoldable pub skip_space : Bytes → Bytes
unfolding scan_space
skip_space p = drop (scan_space p) p

-- `bytes.HasPrefix`, with what follows the prefix.
unfoldable pub after_prefix : Bytes → Bytes → Option Bytes
after_prefix p [] = some p
after_prefix [] (x ∷ prefix) = none
after_prefix (r ∷ p) (x ∷ prefix) =
    let rest = after_prefix p prefix in if r == x then rest else none

-- `parsePrefix`: also on failure the space in front is gone.
unfoldable pub parse_prefix : Bytes → Bytes → Bytes × Bool
unfolding skip_space after_prefix
parse_prefix p prefix = elim (after_prefix (skip_space p) prefix) [
  | some rest ↦ (rest, true)
  | none ↦ (skip_space p, false)
]

-- The loop of `scanStringIdx` behind the opening quote: the index of the closing one.
unfoldable pub string_end : ℕ → Bool → Bytes → Option ℕ
string_end idx escape [] = none
string_end idx escape (r ∷ p) =
    let rest = string_end (idx + 1) (not escape && r == b'\\') p in
    if not escape && r == b'"' then some idx else rest

abbrev pub open_quote : ℕ → Bytes → Option (ℕ × ℕ)
open_quote beg [] = none
open_quote beg (r ∷ p) = elim (string_end 1 false p) [
  | none ↦ none
  | some idx ↦ if r == b'"' then some (beg, beg + idx + 1) else none
]

-- `scanStringIdx`: where the string begins, and where what follows it does.
unfoldable pub scan_string_idx : Bytes → Option (ℕ × ℕ)
unfolding scan_space string_end
scan_string_idx p = let beg = scan_space p in open_quote beg (drop beg p)

-- `scanString`: the string with its quotes, and the rest.
unfoldable pub scan_string : Bytes → Option (Bytes × Bytes)
unfolding scan_string_idx
scan_string p = elim (scan_string_idx p) [
  | none ↦ none
  | some (beg, end) ↦ some (drop beg (take end p), drop end p)
]

-- `scanObject` and `scanArray` are one function but for the byte that ends them, `close`. The
-- argument `p` is behind the opening byte; every call looks at a shorter slice, so that a fuel
-- above the length of `p` is enough.
unfoldable pub scan_nested : ℕ → ℕ → ℕ → Bytes → Option ℕ
scan_nested zero close idx p = none
scan_nested (suc fuel) close idx [] = none
scan_nested (suc fuel) close idx (r ∷ p) =
    let skip = λ (end : ℕ). scan_nested fuel close (idx + end) (drop end (r ∷ p)) in
    let string : Option ℕ = elim (scan_string_idx (r ∷ p)) [
      | none ↦ none
      | some (beg, end) ↦ skip end
    ] in
    let object : Option ℕ = elim (scan_nested fuel b'}' 1 p) [
      | none ↦ none
      | some end ↦ skip end
    ] in
    let array : Option ℕ = elim (scan_nested fuel b']' 1 p) [ none ↦ none | some end ↦ skip end ] in
    let other = scan_nested fuel close (idx + 1) p in
    if r == b'"'
    then string
    else if r == b'{'
    then object
    else if r == b'['
    then array
    else if r == close
    then some (idx + 1)
    else other

unfoldable pub scan_object : Bytes → Option ℕ
unfolding scan_nested
scan_object p = scan_nested (suc (length p)) b'}' 1 p

unfoldable pub scan_array : Bytes → Option ℕ
unfolding scan_nested
scan_array p = scan_nested (suc (length p)) b']' 1 p

-- The loop of `scanAnyObjectValue`, at the index `idx`: the end of the value, and what follows it.
unfoldable pub scan_value_from : ℕ → ℕ → Bytes → Option (ℕ × Bytes)
scan_value_from zero idx p = none
scan_value_from (suc fuel) idx [] = none
scan_value_from (suc fuel) idx (r ∷ p) =
    let skip = λ (end : ℕ). scan_value_from fuel (idx + end) (drop end (r ∷ p)) in
    let string : Option (ℕ × Bytes) = elim (scan_string_idx (r ∷ p)) [
      | none ↦ none
      | some (beg, end) ↦ skip end
    ] in
    let object : Option (ℕ × Bytes) = elim (scan_object p) [ none ↦ none | some end ↦ skip end ] in
    let array : Option (ℕ × Bytes) = elim (scan_array p) [ none ↦ none | some end ↦ skip end ] in
    let other = scan_value_from fuel (idx + 1) p in
    if r == b'"'
    then string
    else if r == b'{'
    then object
    else if r == b'['
    then array
    else if r == b',' || r == b'}'
    then some (idx, r ∷ p)
    else other

-- `scanAnyObjectValue`: the bytes of a value, and the rest.
unfoldable pub scan_any_object_value : Bytes → Option (Bytes × Bytes)
unfolding scan_value_from
scan_any_object_value p = elim (scan_value_from (suc (length p)) 0 p) [
  | none ↦ none
  | some (idx, rest) ↦ some (take idx p, rest)
]
