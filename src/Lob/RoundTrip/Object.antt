-- ===== src/Lob/RoundTrip/Object.antt =====
-- internal/lob: what `writeTo` writes for a list of fields is read back field by field.
use mathlib.Core.List.{append_assoc, append-nil}
use gogotelehash.Lob.Packet.{Bytes, Header}
use gogotelehash.Lob.Parse.{Json}
use gogotelehash.Lob.Parse.Fields.{parse_field, header_loop, parse_header}
use gogotelehash.Lob.Print.{Writer, write_field}
use gogotelehash.Lob.RoundTrip.Prefix.{parse_prefix_hit, parse_prefix_miss}
use gogotelehash.Lob.RoundTrip.Field.{Entry, text, Parses}
use gogotelehash.Prelude.{
  ℕ, ◌≡◌, arith, zero, suc, ◌≤◌, ◌<◌, refl, sym, ap, ◌∙◌, true, false, some, List, [], ◌∷◌, ◌++◌,
  length, All, length-append,
}

-- The fields behind the first one, each with its comma.
abbrev pub later : List Entry → Bytes
later [] = []
later (e ∷ l) = b',' ∷ (text e ++ later l)

abbrev pub joined : List Entry → Bytes
joined [] = []
joined (e ∷ l) = text e ++ later l

abbrev pub write_entries : List Entry → Writer → Writer
write_entries [] w = w
write_entries (e ∷ l) w = write_entries l (write_field e.key e.value w)

abbrev pub apply_entries : List Entry → Header → Header
apply_entries [] h = h
apply_entries (e ∷ l) h = apply_entries l (e.effect h)

write_entries-later :
    (l : List Entry) (b : Bytes)
    → write_entries l (record { first = false; buf = b })
      ≡ record { first = false; buf = b ++ later l }
write_entries-later [] b =
    ap (λ (x : Bytes). record { first = false; buf = x }) (sym (append-nil b))
write_entries-later (e ∷ l) b =
    write_entries-later l (b ++ b',' ∷ text e)
    ∙ ap (λ (x : Bytes). record { first = false; buf = x })
        (append_assoc b (b',' ∷ text e) (later l))

pub buf-write_entries :
    (l : List Entry) (b : Bytes)
    → (write_entries l (record { first = true; buf = b })).buf ≡ b ++ joined l
buf-write_entries [] b = sym (append-nil b)
buf-write_entries (e ∷ l) b =
    ap (λ (w : Writer). w.buf) (write_entries-later l (b ++ text e))
    ∙ append_assoc b (text e) (later l)

module _ (j : Json) where
  round_more :
      (fuel : ℕ) (h h2 : Header) (p rest : Bytes)
      → parse_field j h p ≡ some (h2, b',' ∷ rest)
      → header_loop j (suc fuel) h p ≡ header_loop j fuel h2 rest
  unfolding header_loop
  round_more fuel h h2 p rest e = let hit = parse_prefix_hit b',' rest refl in grind (arith, e, hit)

  round_last :
      (fuel : ℕ) (h h2 : Header) (p rest : Bytes)
      → parse_field j h p ≡ some (h2, b'}' ∷ rest)
      → header_loop j (suc fuel) h p ≡ some h2
  unfolding header_loop
  round_last fuel h h2 p rest e =
      let out = parse_prefix_miss b'}' b',' rest [] refl (ground arith) in
      let hit = parse_prefix_hit b'}' rest refl in grind (arith, e, out, hit)

  -- The loop reads the fields, at any fuel from their number on.
  pub header_loop-joined :
      (fuel : ℕ) (e : Entry) (l : List Entry) (h : Header) (rest : Bytes)
      → length l < fuel
      → Parses j e
      → All (Parses j) l
      → header_loop j fuel h ((text e ++ later l) ++ b'}' ∷ rest) ≡ some (apply_entries (e ∷ l) h)
  header_loop-joined zero e l h rest f pe pl = absurd (omega arith)
  header_loop-joined (suc fuel) e [] h rest f pe pl =
      ap (header_loop j (suc fuel) h) (append_assoc (text e) [] (b'}' ∷ rest))
      ∙ round_last fuel h (e.effect h) (text e ++ b'}' ∷ rest) rest (pe h b'}' rest refl)
  header_loop-joined (suc fuel) e (x ∷ l) h rest f pe (px, pl) =
      let more = (text x ++ later l) ++ b'}' ∷ rest in
      ap (header_loop j (suc fuel) h) (append_assoc (text e) (later (x ∷ l)) (b'}' ∷ rest))
      ∙ round_more fuel h (e.effect h) (text e ++ b',' ∷ more) more (pe h b',' more refl)
      ∙ header_loop-joined fuel x l (e.effect h) rest (omega arith) px pl

  length-later : (l : List Entry) → length l ≤ length (later l)
  length-later [] = omega arith
  length-later (e ∷ l) =
      let sum = length-append (text e) (later l) in let behind = length-later l in omega arith

  header_fuel :
      (e : Entry) (l : List Entry) (rest : Bytes)
      → length l < suc (length ((text e ++ later l) ++ b'}' ∷ rest))
  header_fuel e l rest =
      let a = length-append (text e ++ later l) (b'}' ∷ rest) in
      let b = length-append (text e) (later l) in let c = length-later l in omega arith

  parse_header-header_loop :
      (h : Header) (p : Bytes) → parse_header j h (b'{' ∷ p) ≡ header_loop j (suc (length p)) h p
  unfolding parse_header
  parse_header-header_loop h p = let hit = parse_prefix_hit b'{' p refl in rw (hit) refl

  pub parse_header-joined :
      (e : Entry) (l : List Entry) (h : Header)
      → Parses j e
      → All (Parses j) l
      → parse_header j h (b'{' ∷ (joined (e ∷ l) ++ b'}' ∷ [])) ≡ some (apply_entries (e ∷ l) h)
  parse_header-joined e l h pe pl =
      parse_header-header_loop h ((text e ++ later l) ++ b'}' ∷ [])
      ∙ header_loop-joined (suc (length ((text e ++ later l) ++ b'}' ∷ []))) e l h []
          (header_fuel e l []) pe pl
