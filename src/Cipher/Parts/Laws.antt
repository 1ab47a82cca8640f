-- ===== src/Cipher/Parts/Laws.antt =====
-- e3x/cipherset/map.go: both sides select the same cipher set, and parts are read back from a header.
use gogotelehash.Cipher.Parts.{
  better, select_from, select_csid, hex_digit, hex_id, hex_value, id_of_key, text_of, parts_of,
  parts_from_header, apply_to_header,
}
use gogotelehash.Hashname.Laws.{IsMap}
use gogotelehash.Lob.Extra.{set, set_string, bytes_eq_sound}
use gogotelehash.Lob.Packet.{Bytes, Header, Value, is_zero, is_empty, empty_header}
use gogotelehash.Lob.Parse.Fields.{bytes_eq, set_extra}
use mathlib.Core.List.{append_assoc, append-nil}
use gogotelehash.Prelude.Map.{lookup, insert, lookup-insert}
use gogotelehash.Prelude.{
  ℕ, ◌/◌, ◌≤◌, ◌≡◌, ap, Option, none, some, List, [], ◌∷◌, arith, ◌%◌, ◌<◌, refl, ◌∙◌, ◌≢◌, ◌⊎◌,
  inl, inr, true, false, ltb, ◌==◌, if◌then◌else◌, if_intro, ==_iff, Bool-cases, length, All, sym,
  subst, ◌++◌, All-append,
}

module _ {V : Type 0} where
  -- Both sides have a key for the id.
  abbrev pub Common : List (ℕ × V) → List (ℕ × V) → ℕ → Type 0
  Common a b id = ((v : V) × (lookup id a ≡ some v)) × ((w : V) × (lookup id b ≡ some w))

  better-le : (id : ℕ) (o : Option V) (max : ℕ) → max ≤ better id o max
  better-le id none max = omega arith
  better-le id (some v) max = ground arith

  select_from-le : (a b : List (ℕ × V)) (max : ℕ) → max ≤ select_from a b max
  unfolding select_from
  select_from-le [] b max = omega arith
  select_from-le ((id, v) ∷ rest) b max =
      omega
        (arith, better-le id (lookup id b) max, select_from-le rest b (better id (lookup id b) max))

  better-some : (id : ℕ) (w : V) (o : Option V) (max : ℕ) → o ≡ some w → id ≤ better id o max
  better-some id w none max h = cc
  better-some id w (some v) max h = ground arith

  -- No common id is above the one selected.
  select_from-above : (a b : List (ℕ × V)) (max id : ℕ) → Common a b id → id ≤ select_from a b max
  unfolding select_from
  select_from-above [] b max id ((v, e), c) = absurd (no_entry e)
    where
      no_entry : {v : V} → none ≡ some v → ⊥
      no_entry e = cc
  select_from-above ((j, v) ∷ rest) b max id ((x, e), (w, f)) = elim (Bool-cases (j == id)) [
    | inl same ↦
        let it : lookup j b ≡ some w = ap (λ (k : ℕ). lookup k b) ((==_iff j id).0 same) ∙ f in
        omega (
          arith,
          (==_iff j id).0 same,
          better-some j w (lookup j b) max it,
          select_from-le rest b (better j (lookup j b) max),
        )
    | inr other ↦
        select_from-above rest b (better j (lookup j b) max) id ((x, rw other at e), (w, f))
  ]

  better-is :
      (id : ℕ) (o : Option V) (max : ℕ)
      → (better id o max ≡ max) ⊎ ((better id o max ≡ id) × ((w : V) × (o ≡ some w)))
  better-is id none max = inl refl
  better-is id (some w) max =
      if_intro (λ (m : ℕ). (m ≡ max) ⊎ ((m ≡ id) × ((x : V) × (some w ≡ some x)))) (ltb max id)
        (λ _. inr (refl, (w, refl))) (λ _. inl refl)

  lookup-some :
      (j : ℕ) (v : V) (rest : List (ℕ × V)) (id : ℕ)
      → ((w : V) × (lookup id rest ≡ some w))
      → (w : V) × (lookup id ((j, v) ∷ rest) ≡ some w)
  lookup-some j v rest id (w, e) =
      if_intro (λ (o : Option V). (x : V) × (o ≡ some x)) (j == id) (λ _. (v, refl)) (λ _. (w, e))

  -- What is selected is common, if it is not the number that the loop began with.
  select_from-is :
      (a b : List (ℕ × V)) (max : ℕ)
      → (select_from a b max ≡ max) ⊎ Common a b (select_from a b max)
  unfolding select_from
  select_from-is [] b max = inl refl
  select_from-is ((j, v) ∷ rest) b max =
      let m = better j (lookup j b) max in
      elim (select_from-is rest b m) [
        | inr (c, d) ↦ inr (lookup-some j v rest _ c, d)
        | inl same ↦ elim (better-is j (lookup j b) max) [
          | inl stays ↦ inl (same ∙ stays)
          | inr (taken, (w, e)) ↦ inr (
            (
              v,
              ap (λ (k : ℕ). lookup k ((j, v) ∷ rest)) (same ∙ taken)
                  ∙ rw ((==_iff j j).1 refl) refl,
            ),
            (w, ap (λ (k : ℕ). lookup k b) (same ∙ taken) ∙ e),
          )
        ]
      ]

  select_csid-le : (a b : List (ℕ × V)) → select_csid a b ≤ select_csid b a
  unfolding select_csid
  select_csid-le a b = elim (select_from-is a b 0) [
    | inl none_common ↦ omega (arith, none_common)
    | inr (c, d) ↦ select_from-above b a 0 _ (d, c)
  ]

-- `SelectCSID` answers the highest id for which both sides have a key, and 0 if there is none; so both
-- sides select the same cipher set, whatever the order in which their keys are iterated over.
pub select_csid_lem :
    {V : Type 0} (a b : List (ℕ × V))
    → (select_csid a b ≡ select_csid b a)
      × ((id : ℕ) → Common a b id → id ≤ select_csid a b)
      × ((select_csid a b ≡ 0) ⊎ Common a b (select_csid a b))
unfolding select_csid
select_csid_lem a b = (
  omega (arith, select_csid-le a b, select_csid-le b a),
  select_from-above a b 0,
  select_from-is a b 0,
)

-- The parts of an identity: each id once, a byte, with a text of 52 characters.
abbrev pub AreParts : List (ℕ × Bytes) → Type 0
AreParts p = IsMap p × All (λ (e : ℕ × Bytes). (e.0 < 256) × (length e.1 ≡ 52)) p

hex_value-digit : (n : ℕ) → n < 16 → hex_value (hex_digit n) ≡ some n
hex_value-digit n h = ground arith

id_of_key-hex_id : (k : ℕ) → k < 256 → id_of_key (hex_id k) ≡ some k
id_of_key-hex_id k h =
    rw (hex_value-digit (k / 16) (omega arith), hex_value-digit (k % 16) (omega arith))
      (ap (λ (n : ℕ). some n) (omega arith))

text_of-string : (s : Bytes) → length s ≡ 52 → text_of (Value.string s) ≡ some s
text_of-string [] h = absurd (omega arith)
text_of-string (c ∷ rest) h = refl

abbrev pub written : List (ℕ × Bytes) → List (Bytes × Value)
written [] = []
written ((k, v) ∷ rest) = (hex_id k, Value.string v) ∷ written rest

-- What is written is read back, entry by entry.
parts_of-written :
    (p : List (ℕ × Bytes))
    → All (λ (e : ℕ × Bytes). (e.0 < 256) × (length e.1 ≡ 52)) p
    → (y : List (ℕ × Bytes)) × (parts_of (written p) ≡ some y) × ((k : ℕ) → lookup k y ≡ lookup k p)
unfolding parts_of
parts_of-written [] h = ([], refl, λ k. refl)
parts_of-written ((j, v) ∷ rest) ((byte, len), h) =
    let (y, e, same) = parts_of-written rest h in
    let fits : (length v == 52) ≡ true = (==_iff (length v) 52).1 len in
    (
      insert j v y,
      rw (id_of_key-hex_id j byte, text_of-string v len, e, fits) refl,
      λ k. lookup-insert j k v y ∙ ap (λ (o : Option Bytes). if j == k then some v else o) (same k),
    )

hex_id-injective : (j k : ℕ) → j < 256 → k < 256 → hex_id j ≡ hex_id k → j ≡ k
hex_id-injective j k hj hk e =
    let same : some j ≡ some k =
      sym (id_of_key-hex_id j hj) ∙ ap id_of_key e ∙ id_of_key-hex_id k hk in
    cc

hex_id-apart : (j k : ℕ) → j < 256 → k < 256 → j ≢ k → bytes_eq (hex_id j) (hex_id k) ≡ false
hex_id-apart j k hj hk apart = elim (Bool-cases (bytes_eq (hex_id j) (hex_id k))) [
  | inr other ↦ other
  | inl same ↦ absurd (apart (hex_id-injective j k hj hk (bytes_eq_sound _ _ same)))
]

abbrev pub NotIn : Bytes → List (Bytes × Value) → Type 0
NotIn key m = All (λ (e : Bytes × Value). bytes_eq e.0 key ≡ false) m

pub set_extra-new :
    (key : Bytes) (v : Value) (m : List (Bytes × Value))
    → NotIn key m
    → set_extra key v m ≡ m ++ (key, v) ∷ []
unfolding set_extra
set_extra-new key v [] h = refl
set_extra-new key v ((k, w) ∷ rest) h =
    rw h.0 (ap (λ (t : List (Bytes × Value)). (k, w) ∷ t) (set_extra-new key v rest h.1))

apart_from : (j : ℕ) (p : List (ℕ × Bytes)) → lookup j p ≡ none → All (λ (e : ℕ × Bytes). e.0 ≢ j) p
apart_from j [] h = tt
apart_from j ((k, v) ∷ rest) h = elim (Bool-cases (k == j)) [
  | inl same ↦ cc (rw same at h)
  | inr other ↦ (λ e. ground arith, apart_from j rest (rw other at h))
]

-- The keys of the parts are none of those in `m`.
abbrev Fresh : List (ℕ × Bytes) → List (Bytes × Value) → Type 0
Fresh p m = All (λ (e : ℕ × Bytes). NotIn (hex_id e.0) m) p

Fresh-append :
    (j : ℕ) (v : Bytes) (p : List (ℕ × Bytes)) (m : List (Bytes × Value))
    → j < 256
    → All (λ (e : ℕ × Bytes). (e.0 < 256) × (length e.1 ≡ 52)) p
    → All (λ (e : ℕ × Bytes). e.0 ≢ j) p
    → Fresh p m
    → Fresh p (m ++ (hex_id j, Value.string v) ∷ [])
Fresh-append j v [] m hj b a f = tt
Fresh-append j v ((k, w) ∷ rest) m hj b a f = (
  All-append _ m ((hex_id j, Value.string v) ∷ []) f.0
      (hex_id-apart j k hj b.0.0 (λ e. a.0 (sym e)), tt),
  Fresh-append j v rest m hj b.1 a.1 f.1,
)

pub apply_to_header-extra :
    (p : List (ℕ × Bytes)) (h : Header)
    → AreParts p
    → Fresh p h.extra
    → (apply_to_header p h).extra ≡ h.extra ++ written p
unfolding apply_to_header set_string set
apply_to_header-extra [] h a f = sym (append-nil h.extra)
apply_to_header-extra ((j, v) ∷ rest) h ((free, m), (good, b)) (f, fs) =
    let set_here = set_extra-new (hex_id j) (Value.string v) h.extra f in
    let h' = set_string (hex_id j) v h in
    let fresh =
      subst (Fresh rest) (sym set_here)
        (Fresh-append j v rest h.extra good.0 b (apart_from j rest free) fs) in
    apply_to_header-extra rest h' (m, b) fresh
    ∙ ap (λ (t : List (Bytes × Value)). t ++ written rest) set_here
    ∙ append_assoc h.extra ((hex_id j, Value.string v) ∷ []) (written rest)

pub no_keys : (p : List (ℕ × Bytes)) → Fresh p []
no_keys [] = tt
no_keys (e ∷ rest) = (tt, no_keys rest)

filled_header :
    (h : Header) (k : Bytes × Value) (m : List (Bytes × Value))
    → h.extra ≡ k ∷ m
    → is_zero h ≡ false
unfolding is_zero
filled_header h k m e = let full : is_empty h.extra ≡ false = rw e refl in ground (arith, full)

read_back :
    (p : List (ℕ × Bytes)) (h : Header)
    → AreParts p
    → h.extra ≡ written p
    → p ≢ []
    → (y : List (ℕ × Bytes)) × (parts_from_header h ≡ some y) × ((k : ℕ) → lookup k y ≡ lookup k p)
unfolding parts_from_header
read_back [] h a e n = absurd (n refl)
read_back ((j, v) ∷ rest) h a e n =
    let (y, read, same) = parts_of-written ((j, v) ∷ rest) a.1 in
    (y, rw (filled_header h _ _ e, e) read, same)

no_parts : parts_from_header (apply_to_header [] empty_header) ≡ some []
unfolding apply_to_header parts_from_header is_zero
no_parts = refl

-- Parts that are put in an empty header, each id a byte, in the map once, and with a text of 52
-- characters, are read back from it: the same text for every id, and no other.
pub parts_from_header-apply_to_header :
    (p : List (ℕ × Bytes))
    → AreParts p
    → (y : List (ℕ × Bytes)) × (parts_from_header (apply_to_header p empty_header) ≡ some y)
      × ((k : ℕ) → lookup k y ≡ lookup k p)
parts_from_header-apply_to_header [] a = ([], no_parts, λ k. refl)
parts_from_header-apply_to_header (e ∷ rest) a =
    read_back (e ∷ rest) _ a (apply_to_header-extra (e ∷ rest) empty_header a (no_keys (e ∷ rest)))
      (λ h. cc)
