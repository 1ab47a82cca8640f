-- ===== src/Lob/RoundTrip/Canonical.antt =====
-- internal/lob: the headers that are read back as they were written.
use gogotelehash.Lob.Packet.{Bytes, Value, Header, empty_header, is_empty, is_zero}
use gogotelehash.Lob.Parse.{Json}
use gogotelehash.Lob.Parse.Fields.{hdr_c, hdr_type, hdr_seq, hdr_ack, hdr_end}
use gogotelehash.Lob.Print.{Writer, write_if, write_known, print_uint32, print_bool, quote}
use gogotelehash.Lob.RoundTrip.Number.{Fits}
use gogotelehash.Lob.RoundTrip.Text.{is_text}
use gogotelehash.Lob.RoundTrip.Field.{
  Entry, c_entry, seq_entry, ack_entry, type_entry, end_entry, miss_entry, Parses, c_entry-Parses,
  seq_entry-Parses, ack_entry-Parses, type_entry-Parses, end_entry-Parses, miss_entry-Parses,
}
use gogotelehash.Lob.RoundTrip.Object.{write_entries, apply_entries}
use gogotelehash.Prelude.{
  ℕ, ◌≡◌, arith, refl, sym, ap, ◌∙◌, Bool, true, false, not, ◌&&◌, List, [], ◌∷◌, ◌++◌, All, ◌||◌,
}

-- A JSON header of known fields: a field that is not there is blank, a list of misses that is there
-- is not empty, numbers are uint32 and the type is a text.
pub record IsCanonical (h : Header) : Type 0 where
  pub no_bytes : h.bytes ≡ []
  pub no_extra : h.extra ≡ []
  pub c_fits : Fits h.c
  pub seq_fits : Fits h.seq
  pub ack_fits : Fits h.ack
  pub miss_fits : All Fits h.miss
  pub type_text : All (λ (r : ℕ). is_text r ≡ true) h.type
  pub blank_c : h.has_c ≡ false → h.c ≡ 0
  pub blank_type : h.has_type ≡ false → h.type ≡ []
  pub blank_end : h.has_end ≡ false → h.end ≡ false
  pub blank_seq : h.has_seq ≡ false → h.seq ≡ 0
  pub blank_ack : h.has_ack ≡ false → h.ack ≡ 0
  pub blank_miss : h.has_miss ≡ false → h.miss ≡ []
  pub some_miss : h.has_miss ≡ true → is_empty h.miss ≡ false

abbrev pub entry_if : Bool → Entry → List Entry
entry_if true e = e ∷ []
entry_if false e = []

-- The fields of a header, in the order in which they are written.
abbrev pub entries : Header → List Entry
entries h =
    entry_if h.has_c (c_entry h.c)
    ++ (entry_if h.has_type (type_entry h.type)
        ++ (entry_if h.has_end (end_entry h.end)
            ++ (entry_if h.has_seq (seq_entry h.seq)
                ++ (entry_if h.has_ack (ack_entry h.ack)
                    ++ entry_if (h.has_miss && not (is_empty h.miss)) (miss_entry h.miss)))))

write_entries-entry_if :
    (b : Bool) (e : Entry) (l : List Entry) (w : Writer)
    → write_entries (entry_if b e ++ l) w ≡ write_entries l (write_if b e.key e.value w)
write_entries-entry_if true e l w = refl
write_entries-entry_if false e l w = refl

write_if-entries :
    (b : Bool) (e : Entry) (w : Writer)
    → write_if b e.key e.value w ≡ write_entries (entry_if b e) w
write_if-entries true e w = refl
write_if-entries false e w = refl

-- `writeTo` writes these fields.
pub write_known-entries : (h : Header) (w : Writer) → write_known h w ≡ write_entries (entries h) w
unfolding write_known
write_known-entries h w =
    let w1 = write_if h.has_c hdr_c (print_uint32 h.c) w in
    let w2 = write_if h.has_type hdr_type (quote h.type) w1 in
    let w3 = write_if h.has_end hdr_end (print_bool h.end) w2 in
    let w4 = write_if h.has_seq hdr_seq (print_uint32 h.seq) w3 in
    let w5 = write_if h.has_ack hdr_ack (print_uint32 h.ack) w4 in
    let has_miss = h.has_miss && not (is_empty h.miss) in
    let l5 = entry_if has_miss (miss_entry h.miss) in
    let l4 = entry_if h.has_ack (ack_entry h.ack) ++ l5 in
    let l3 = entry_if h.has_seq (seq_entry h.seq) ++ l4 in
    let l2 = entry_if h.has_end (end_entry h.end) ++ l3 in
    let l1 = entry_if h.has_type (type_entry h.type) ++ l2 in
    sym (
      write_entries-entry_if h.has_c (c_entry h.c) l1 w
      ∙ write_entries-entry_if h.has_type (type_entry h.type) l2 w1
      ∙ write_entries-entry_if h.has_end (end_entry h.end) l3 w2
      ∙ write_entries-entry_if h.has_seq (seq_entry h.seq) l4 w3
      ∙ write_entries-entry_if h.has_ack (ack_entry h.ack) l5 w4
      ∙ sym (write_if-entries has_miss (miss_entry h.miss) w5))

is_empty-six :
    (b1 b2 b3 b4 b5 b6 : Bool) (e1 e2 e3 e4 e5 e6 : Entry)
    → is_empty (
        entry_if b1 e1
        ++ (entry_if b2 e2
            ++ (entry_if b3 e3 ++ (entry_if b4 e4 ++ (entry_if b5 e5 ++ entry_if b6 e6)))))
      ≡ (not b1 && (not b3 && (not b2 && (not b4 && (not b5 && not b6)))))
is_empty-six true b2 b3 b4 b5 b6 e1 e2 e3 e4 e5 e6 = refl
is_empty-six false true true b4 b5 b6 e1 e2 e3 e4 e5 e6 = refl
is_empty-six false true false b4 b5 b6 e1 e2 e3 e4 e5 e6 = refl
is_empty-six false false true b4 b5 b6 e1 e2 e3 e4 e5 e6 = refl
is_empty-six false false false true b5 b6 e1 e2 e3 e4 e5 e6 = refl
is_empty-six false false false false true b6 e1 e2 e3 e4 e5 e6 = refl
is_empty-six false false false false false true e1 e2 e3 e4 e5 e6 = refl
is_empty-six false false false false false false e1 e2 e3 e4 e5 e6 = refl

miss_written :
    (a m x y : Bool) → x ≡ true → y ≡ true → not (a && not m) ≡ ((not a || m) && (x && y))
miss_written a m x y hx hy = ground (arith, hx, hy)

-- Nothing is written for a header that `IsZero` accepts, and for no other.
pub is_empty-entries : (h : Header) → IsCanonical h → is_empty (entries h) ≡ is_zero h
unfolding is_zero
is_empty-entries h k =
    is_empty-six h.has_c h.has_type h.has_end h.has_seq h.has_ack
      (h.has_miss && not (is_empty h.miss)) (c_entry h.c) (type_entry h.type) (end_entry h.end)
      (seq_entry h.seq) (ack_entry h.ack) (miss_entry h.miss)
    ∙ ap
        (λ (b : Bool).
          not h.has_c
          && (not h.has_end && (not h.has_type && (not h.has_seq && (not h.has_ack && b)))))
        (miss_written h.has_miss (is_empty h.miss) (is_empty h.extra) (is_empty h.bytes)
          (ap is_empty k.no_extra) (ap is_empty k.no_bytes))

apply_entries-append :
    (k l : List Entry) (h : Header) → apply_entries (k ++ l) h ≡ apply_entries l (apply_entries k h)
apply_entries-append [] l h = refl
apply_entries-append (e ∷ k) l h = apply_entries-append k l (e.effect h)

-- A field of a header that is blank so far is read, or left blank.
stage :
    {A : Type 0} (set : A → Bool → Header) (entry : A → Entry) (blank : A) (b : Bool) (a : A)
    → ((x : A) → (entry x).effect (set blank false) ≡ set x true)
    → (b ≡ false → a ≡ blank)
    → apply_entries (entry_if b (entry a)) (set blank false) ≡ set a b
stage set entry blank true a e h = e a
stage set entry blank false a e h = ap (λ x. set x false) (sym (h refl))

then_stage :
    (k l : List Entry) (h h2 : Header)
    → apply_entries k h ≡ h2
    → apply_entries (k ++ l) h ≡ apply_entries l h2
then_stage k l h h2 e = apply_entries-append k l h ∙ ap (apply_entries l) e

has_miss-IsCanonical :
    (h : Header) → IsCanonical h → h.has_miss && not (is_empty h.miss) ≡ h.has_miss
has_miss-IsCanonical h k = let m = k.some_miss in ground (arith, m)

blank_written :
    (h : Header) → IsCanonical h → h.has_miss && not (is_empty h.miss) ≡ false → h.miss ≡ []
blank_written h k e = k.blank_miss (sym (has_miss-IsCanonical h k) ∙ e)

-- Reading the fields of a canonical header gives the header.
pub apply_entries-IsCanonical :
    (h : Header) → IsCanonical h → apply_entries (entries h) empty_header ≡ h
apply_entries-IsCanonical h k =
    let has_miss = h.has_miss && not (is_empty h.miss) in
    let s1 : ℕ → Bool → Header = λ n b. record empty_header { c = n; has_c = b } in
    let h1 = s1 h.c h.has_c in
    let s2 : Bytes → Bool → Header = λ t b. record h1 { type = t; has_type = b } in
    let h2 = s2 h.type h.has_type in
    let s3 : Bool → Bool → Header = λ e b. record h2 { end = e; has_end = b } in
    let h3 = s3 h.end h.has_end in
    let s4 : ℕ → Bool → Header = λ n b. record h3 { seq = n; has_seq = b } in
    let h4 = s4 h.seq h.has_seq in
    let s5 : ℕ → Bool → Header = λ n b. record h4 { ack = n; has_ack = b } in
    let h5 = s5 h.ack h.has_ack in
    let s6 : List ℕ → Bool → Header = λ l b. record h5 { miss = l; has_miss = b } in
    let e6 = entry_if has_miss (miss_entry h.miss) in
    let e5 = entry_if h.has_ack (ack_entry h.ack) in
    let e4 = entry_if h.has_seq (seq_entry h.seq) in
    let e3 = entry_if h.has_end (end_entry h.end) in
    let e2 = entry_if h.has_type (type_entry h.type) in
    let e1 = entry_if h.has_c (c_entry h.c) in
    then_stage e1 (e2 ++ (e3 ++ (e4 ++ (e5 ++ e6)))) empty_header h1
      (stage s1 c_entry 0 h.has_c h.c (λ x. refl) k.blank_c)
    ∙ then_stage e2 (e3 ++ (e4 ++ (e5 ++ e6))) h1 h2
        (stage s2 type_entry [] h.has_type h.type (λ x. refl) k.blank_type)
    ∙ then_stage e3 (e4 ++ (e5 ++ e6)) h2 h3
        (stage s3 end_entry false h.has_end h.end (λ x. refl) k.blank_end)
    ∙ then_stage e4 (e5 ++ e6) h3 h4 (stage s4 seq_entry 0 h.has_seq h.seq (λ x. refl) k.blank_seq)
    ∙ then_stage e5 e6 h4 h5 (stage s5 ack_entry 0 h.has_ack h.ack (λ x. refl) k.blank_ack)
    ∙ stage s6 miss_entry [] has_miss h.miss (λ x. refl) (blank_written h k)
    ∙ ap (s6 h.miss) (has_miss-IsCanonical h k)
    ∙ ap (λ (b : Bytes). record h { bytes = b; extra = [] }) (sym k.no_bytes)
    ∙ ap (λ (m : List (Bytes × Value)). record h { extra = m }) (sym k.no_extra)

module _ (j : Json) where
  entry_if-Parses :
      (b : Bool) (e : Entry) (l : List Entry)
      → (b ≡ true → Parses j e)
      → All (Parses j) l
      → All (Parses j) (entry_if b e ++ l)
  entry_if-Parses true e l he hl = (he refl, hl)
  entry_if-Parses false e l he hl = hl

  last_entry-Parses :
      (b : Bool) (e : Entry) → (b ≡ true → Parses j e) → All (Parses j) (entry_if b e)
  last_entry-Parses true e he = (he refl, tt)
  last_entry-Parses false e he = tt

  and_right : (a : Bool) {b : Bool} → a && b ≡ true → b ≡ true
  and_right true e = e
  and_right false e = absurd (ground arith)

  written_miss-Parses :
      (l : List ℕ) → not (is_empty l) ≡ true → All Fits l → Parses j (miss_entry l)
  written_miss-Parses [] n h = absurd (ground arith)
  written_miss-Parses (m ∷ l) n (hm, h) = miss_entry-Parses j m l hm h

  pub entries-Parses : (h : Header) → IsCanonical h → All (Parses j) (entries h)
  entries-Parses h k =
      let has_miss = h.has_miss && not (is_empty h.miss) in
      let e6 = entry_if has_miss (miss_entry h.miss) in
      let e5 = entry_if h.has_ack (ack_entry h.ack) ++ e6 in
      let e4 = entry_if h.has_seq (seq_entry h.seq) ++ e5 in
      let e3 = entry_if h.has_end (end_entry h.end) ++ e4 in
      let e2 = entry_if h.has_type (type_entry h.type) ++ e3 in
      entry_if-Parses h.has_c (c_entry h.c) e2 (λ t. c_entry-Parses j h.c k.c_fits)
        (entry_if-Parses h.has_type (type_entry h.type) e3
          (λ t. type_entry-Parses j h.type k.type_text)
          (entry_if-Parses h.has_end (end_entry h.end) e4 (λ t. end_entry-Parses j h.end)
            (entry_if-Parses h.has_seq (seq_entry h.seq) e5
              (λ t. seq_entry-Parses j h.seq k.seq_fits)
              (entry_if-Parses h.has_ack (ack_entry h.ack) e6
                (λ t. ack_entry-Parses j h.ack k.ack_fits)
                (last_entry-Parses has_miss (miss_entry h.miss)
                  (λ t. written_miss-Parses h.miss (and_right h.has_miss t) k.miss_fits))))))
