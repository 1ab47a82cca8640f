-- ===== src/Lob/RoundTrip/Text.antt =====
-- internal/lob: what `%q` writes for a text is read back by `parseString`.
use mathlib.Core.List.{append_assoc}
use gogotelehash.Lob.Packet.{Bytes}
use gogotelehash.Lob.Scan.{string_end, scan_string, scan_string_idx, scan_space}
use gogotelehash.Lob.Parse.{
  plain, escaped, unescape, unescape_step, parse_string, inside, after_bytes,
}
use gogotelehash.Lob.Print.{quote_byte, quote_bytes, quote}
use gogotelehash.Prelude.{
  ℕ, ◌≡◌, arith, ◌-◌, ap, Bool, true, false, ◌&&◌, ◌||◌, some, [], ◌∷◌, ltb, leb, ◌==◌, ◌+◌, inl,
  inr, ◌++◌, Bool-cases, length, refl, ◌∙◌, All, length-append, suc, Option, none, take, drop,
}

-- A byte of ASCII that is printed, or one that has an escape which the decoder reads too: `\b`,
-- `\f`, `\n`, `\r` or `\t`.
abbrev pub is_text : ℕ → Bool
is_text r =
    (leb 0x20 r && ltb r 0x7f) || (r == 8 || (r == 12 || (r == b'\n' || (r == 13 || r == b'\t'))))

-- `%q` leaves most bytes as they are, and escapes the others with a backslash and one byte.
data Quoted (r : ℕ) : Type 0 where
  kept : quote_byte r ≡ r ∷ [] → (r == b'\\') ≡ false → (r == b'"') ≡ false → Quoted r
  escapes :
      (e : ℕ)
      → quote_byte r ≡ b'\\' ∷ e ∷ []
      → unescape_step escaped e ≡ some (r ∷ [], plain)
      → Quoted r

Quoted-cases : (r : ℕ) → is_text r ≡ true → Quoted r
unfolding quote_byte unescape_step
Quoted-cases r h = elim (Bool-cases ((r == b'\\' || r == b'"'))) [
  | inl q ↦ escapes r (ground arith) (ground arith)
  | inr n ↦ elim (Bool-cases (leb 0x20 r)) [
    | inl k ↦ kept (ground arith) (ground arith) (ground arith)
    | inr c ↦ elim (Bool-cases (r == 8)) [
      | inl e ↦ escapes b'b' (ground arith) (ground arith)
      | inr n8 ↦ elim (Bool-cases (r == 12)) [
        | inl e ↦ escapes b'f' (ground arith) (ground arith)
        | inr n12 ↦ elim (Bool-cases (r == b'\n')) [
          | inl e ↦ escapes b'n' (ground arith) (ground arith)
          | inr nn ↦ elim (Bool-cases (r == 13)) [
            | inl e ↦ escapes b'r' (ground arith) (ground arith)
            | inr nr ↦ escapes b't' (ground arith) (ground arith)
          ]
        ]
      ]
    ]
  ]
]

-- The scanner and the decoder go over what is written for one byte as over one character.
string_end-quote_byte :
    (r idx : ℕ) (p : Bytes)
    → is_text r ≡ true
    → string_end idx false (quote_byte r ++ p) ≡ string_end (idx + length (quote_byte r)) false p
unfolding string_end
string_end-quote_byte r idx p h = elim (Quoted-cases r h) [
  | kept e b q ↦ rw (e) (ground (arith, b, q))
  | escapes c e u ↦ rw (e) (ap (λ (k : ℕ). string_end k false p) (omega arith))
]

string_end_quote : (idx : ℕ) (rest : Bytes) → string_end idx false (b'"' ∷ rest) ≡ some (idx + 0)
unfolding string_end
string_end_quote idx rest = ap some (omega arith)

pub string_end-quote_bytes :
    (s : Bytes) (idx : ℕ) (rest : Bytes)
    → All (λ (r : ℕ). is_text r ≡ true) s
    → string_end idx false (quote_bytes s ++ b'"' ∷ rest) ≡ some (idx + length (quote_bytes s))
unfolding quote_bytes
string_end-quote_bytes [] idx rest h = string_end_quote idx rest
string_end-quote_bytes (r ∷ s) idx rest (hr, h) =
    ap (string_end idx false) (append_assoc (quote_byte r) (quote_bytes s) (b'"' ∷ rest))
    ∙ string_end-quote_byte r idx (quote_bytes s ++ b'"' ∷ rest) hr
    ∙ string_end-quote_bytes s (idx + length (quote_byte r)) rest h
    ∙ ap some (let l = length-append (quote_byte r) (quote_bytes s) in omega arith)

after_bytes-nil : (o : Option Bytes) → after_bytes [] o ≡ o
after_bytes-nil none = refl
after_bytes-nil (some b) = refl

unescape-quote_byte :
    (r : ℕ) (p : Bytes)
    → is_text r ≡ true
    → unescape plain (quote_byte r ++ p) ≡ after_bytes (r ∷ []) (unescape plain p)
unfolding unescape unescape_step
unescape-quote_byte r p h = elim (Quoted-cases r h) [
  | kept e b q ↦ rw (e) (ground (arith, b))
  | escapes c e u ↦ rw (e, u) (after_bytes-nil (after_bytes (r ∷ []) (unescape plain p)))
]

unescape_end : unescape plain [] ≡ some []
unfolding unescape
unescape_end = refl

unescape-quote_bytes :
    (s : Bytes) → All (λ (r : ℕ). is_text r ≡ true) s → unescape plain (quote_bytes s) ≡ some s
unfolding quote_bytes
unescape-quote_bytes [] h = unescape_end
unescape-quote_bytes (r ∷ s) (hr, h) =
    unescape-quote_byte r (quote_bytes s) hr ∙ ap (after_bytes (r ∷ [])) (unescape-quote_bytes s h)

-- A list up to one element, and behind it.
take-middle : (t rest : Bytes) (x : ℕ) → take (suc (length t)) (t ++ x ∷ rest) ≡ t ++ x ∷ []
take-middle [] rest x = refl
take-middle (y ∷ t) rest x = ap (λ (l : Bytes). y ∷ l) (take-middle t rest x)

pub drop-middle : (t rest : Bytes) (x : ℕ) → drop (suc (length t)) (t ++ x ∷ rest) ≡ rest
drop-middle [] rest x = refl
drop-middle (y ∷ t) rest x = drop-middle t rest x

take-all : (t : Bytes) (x : ℕ) → take (length t) (t ++ x ∷ []) ≡ t
take-all [] x = refl
take-all (y ∷ t) x = ap (λ (l : Bytes). y ∷ l) (take-all t x)

-- A string with its quotes.
abbrev quoted : Bytes → Bytes
quoted t = b'"' ∷ (t ++ b'"' ∷ [])

pub scan_string_idx-quoted :
    (p : Bytes) (k : ℕ)
    → string_end 1 false p ≡ some k
    → scan_string_idx (b'"' ∷ p) ≡ some (0, suc k)
unfolding scan_string_idx scan_space
scan_string_idx-quoted p k h = grind (arith, h)

scan_string-indices :
    (p : Bytes) (beg end : ℕ)
    → scan_string_idx p ≡ some (beg, end)
    → scan_string p ≡ some (drop beg (take end p), drop end p)
unfolding scan_string
scan_string-indices p beg end h = grind (arith, h)

scan_string-quoted :
    (t rest : Bytes)
    → string_end 1 false (t ++ b'"' ∷ rest) ≡ some (suc (length t))
    → scan_string (b'"' ∷ (t ++ b'"' ∷ rest)) ≡ some (quoted t, rest)
scan_string-quoted t rest h =
    let p = t ++ b'"' ∷ rest in
    scan_string-indices (b'"' ∷ p) 0 (suc (suc (length t)))
      (scan_string_idx-quoted p (suc (length t)) h)
    ∙ ap (λ (a : Bytes). some (b'"' ∷ a, drop (suc (length t)) p)) (take-middle t rest b'"')
    ∙ ap (λ (b : Bytes). some (quoted t, b)) (drop-middle t rest b'"')

inside-quoted : (t : Bytes) → inside (quoted t) ≡ t
inside-quoted t =
    let n : length (quoted t) - 1 ≡ suc (length t) =
      (let l = length-append t (b'"' ∷ []) in omega arith) in
    ap (λ (k : ℕ). drop 1 (take k (quoted t))) n ∙ take-all t b'"'

parse_string-scanned :
    (p v rest s : Bytes)
    → scan_string p ≡ some (v, rest)
    → unescape plain (inside v) ≡ some s
    → parse_string p ≡ some (s, rest)
unfolding parse_string
parse_string-scanned p v rest s h u = grind (arith, h, u)

-- A string of printed ASCII and of the five control characters with a JSON escape is read back by
-- `parseString` from what `%q` writes for it, whatever follows.
pub parse_string-quote :
    (s rest : Bytes)
    → All (λ (r : ℕ). is_text r ≡ true) s
    → parse_string (quote s ++ rest) ≡ some (s, rest)
unfolding quote
parse_string-quote s rest h =
    let t = quote_bytes s in
    ap (λ (x : Bytes). parse_string (b'"' ∷ x)) (append_assoc t (b'"' ∷ []) rest)
    ∙ parse_string-scanned (b'"' ∷ (t ++ b'"' ∷ rest)) (quoted t) rest s
        (scan_string-quoted t rest (string_end-quote_bytes s 1 rest h ∙ ap some (omega arith)))
        (ap (unescape plain) (inside-quoted t) ∙ unescape-quote_bytes s h)
