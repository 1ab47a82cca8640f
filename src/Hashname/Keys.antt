-- ===== src/Hashname/Keys.antt =====
-- internal/hashname/hashname.go: hashnames of public keys.
use gogotelehash.Hashname.Base32.{encode_to_string, decode_string, valid_string}
use gogotelehash.Hashname.Base32.RoundTrip.{decode_string-encode_to_string}
use gogotelehash.Hashname.Derive.{
  Derived, ok, valid, ids_of, sort_ids, or_empty, absorb_all, zeros, from_intermediates,
  parts_from_keys, from_keys, copied, from_key_and_intermediates,
}
use gogotelehash.Hashname.Laws.{IsMap, insert-IsMap, from_intermediates-same, insert_id-All}
use gogotelehash.Lob.Packet.{Bytes}
use gogotelehash.Prelude.Map.{lookup, insert, erase, lookup-insert, lookup-erase}
use gogotelehash.Prelude.{
  ℕ, zero, suc, ◌≤◌, ◌<◌, ◌≡◌, refl, sym, ap, ◌∙◌, Bool, true, false, Option, none, some, List, [],
  ◌∷◌, arith, ◌==◌, if◌then◌else◌, length, take, All, ◌≢◌, inl, inr, ==_iff, Bool-cases,
  Option-cases, All-map,
}

-- A hash has 32 bytes.
pub record IsHash (sha : Bytes → Bytes) : Type 0 where
  pub size : (l : Bytes) → length (sha l) ≡ 32
  pub bytes : (l : Bytes) → All (λ b. b < 256) (sha l)

take_all {ℓ} : {A : Type ℓ} (n : ℕ) (l : List A) → length l ≤ n → take n l ≡ l
take_all zero [] h = refl
take_all zero (x ∷ rest) h = absurd (omega arith)
take_all (suc n) [] h = refl
take_all (suc n) (x ∷ rest) h = ap (λ t. x ∷ t) (take_all n rest (omega arith))

copied-IsMap : (sha : Bytes → Bytes) (m : List (ℕ × Bytes)) → IsMap (copied sha m)
unfolding copied
copied-IsMap sha [] = tt
copied-IsMap sha ((k, v) ∷ rest) = insert-IsMap k v (copied sha rest) (copied-IsMap sha rest)

lookup-copied :
    (sha : Bytes → Bytes) (k : ℕ) (m : List (ℕ × Bytes)) → lookup k (copied sha m) ≡ lookup k m
unfolding copied
lookup-copied sha k [] = refl
lookup-copied sha k ((j, v) ∷ rest) =
    lookup-insert j k v (copied sha rest)
    ∙ ap (λ (o : Option Bytes). if j == k then some v else o) (lookup-copied sha k rest)

module _ (sha : Bytes → Bytes) (good : IsHash sha) where
  -- The text of a hash has 52 characters and is decoded again.
  hash_text :
      (key : Bytes)
      → (length (encode_to_string (sha key)) ≡ 52)
        × (decode_string (encode_to_string (sha key)) ≡ some (sha key))
        × (valid_string (encode_to_string (sha key)) ≡ true)
  hash_text key =
      let (back, fine, len) = decode_string-encode_to_string (sha key) (good.bytes key) in
      (omega (arith, len, good.size key), back, fine)

  abbrev part_of : Option Bytes → Option Bytes
  part_of none = none
  part_of (some key) = some (encode_to_string (sha key))

  split :
      (b : Bool) (key : Bytes) {s : Bytes} {o : Option Bytes} (p : Option Bytes)
      → s ≡ encode_to_string (sha key)
      → o ≡ part_of p
      → (if b then some s else o) ≡ part_of (if b then some key else p)
  split true key p h k = ap (λ (s : Bytes). some s) h
  split false key p h k = k

  lookup-parts_from_keys :
      (k : ℕ) (keys : List (ℕ × Bytes))
      → lookup k (parts_from_keys sha keys) ≡ part_of (lookup k keys)
  unfolding parts_from_keys
  lookup-parts_from_keys k [] = refl
  lookup-parts_from_keys k ((j, key) ∷ rest) =
      let text = take_all 52 (encode_to_string (sha key)) (omega (arith, (hash_text key).0)) in
      lookup-insert j k _ (parts_from_keys sha rest)
      ∙ split (j == k) key (lookup k rest) text (lookup-parts_from_keys k rest)

  parts_from_keys-IsMap : (keys : List (ℕ × Bytes)) → IsMap (parts_from_keys sha keys)
  unfolding parts_from_keys
  parts_from_keys-IsMap [] = tt
  parts_from_keys-IsMap ((j, key) ∷ rest) =
      insert-IsMap j _ (parts_from_keys sha rest) (parts_from_keys-IsMap rest)

  -- With a hash of 32 bytes: a peer that knows one public key and the intermediate parts of the others
  -- derives the hashname that is derived from all the keys.
  pub from_key_and_intermediates-from_keys :
      (id : ℕ) (key : Bytes) (keys : List (ℕ × Bytes))
      → lookup id keys ≡ some key
      → from_key_and_intermediates sha id key (parts_from_keys sha (erase id keys))
        ≡ from_keys sha keys
  unfolding from_key_and_intermediates from_keys
  from_key_and_intermediates-from_keys id key keys h =
      let others = parts_from_keys sha (erase id keys) in
      from_intermediates-same sha _ _
        (insert-IsMap id _ (copied sha others) (copied-IsMap sha others))
        (parts_from_keys-IsMap keys)
        (λ k.
          lookup-insert id k _ (copied sha others)
          ∙ ap (λ (o : Option Bytes). if id == k then some (encode_to_string (sha key)) else o)
              (lookup-copied sha k others
                ∙ lookup-parts_from_keys k (erase id keys)
                ∙ ap part_of (lookup-erase id k keys))
          ∙ elim (Bool-cases (id == k)) [
            | inl same ↦ rw same (
                ap part_of (sym h) ∙ ap (λ (i : ℕ). part_of (lookup i keys)) ((==_iff id k).0 same))
            | inr other ↦ rw other refl
          ]
          ∙ sym (lookup-parts_from_keys k keys))

  -- `id` has a value that is decoded.
  abbrev IsDecoded : List (ℕ × Bytes) → ℕ → Type 0
  IsDecoded parts id =
      (length (or_empty (lookup id parts)) ≡ 52)
      × ((part : Bytes) × (decode_string (or_empty (lookup id parts)) ≡ some part))

  abbrev IsValid : Derived → Type 0
  IsValid d = (h : Bytes) × (d ≡ ok h) × (valid h ≡ true)

  encoded-IsValid :
      (buf : Bytes) → length buf ≡ 32 → All (λ b. b < 256) buf → IsValid (ok (encode_to_string buf))
  unfolding valid
  encoded-IsValid buf n b =
      let (back, fine, len) = decode_string-encode_to_string buf b in
      let whole : length (encode_to_string buf) ≡ 52 = omega (arith, len, n) in
      (encode_to_string buf, refl, rw (whole, fine) refl)

  absorb_all-IsValid :
      (parts : List (ℕ × Bytes)) (ids : List ℕ) (pending buf : Bytes)
      → All (IsDecoded parts) ids
      → length buf ≡ 32
      → All (λ b. b < 256) buf
      → IsValid (absorb_all sha parts ids pending buf)
  unfolding absorb_all
  absorb_all-IsValid parts [] pending buf h n b = encoded-IsValid buf n b
  absorb_all-IsValid parts (id ∷ rest) pending buf h n b =
      let (len, (part, e)) = h.0 in
      let whole : (length (or_empty (lookup id parts)) == 52) ≡ true = (==_iff _ _).1 len in
      rw (whole, e) (absorb_all-IsValid parts rest _ _ h.1 (good.size _) (good.bytes _))

  module _ (m : List (ℕ × Bytes)) where
    IsDecoded-insert_ids : (l : List ℕ) → All (IsDecoded m) l → All (IsDecoded m) (sort_ids l)
    IsDecoded-insert_ids [] h = tt
    IsDecoded-insert_ids (k ∷ rest) h =
        insert_id-All (IsDecoded m) k (sort_ids rest) h.0 (IsDecoded-insert_ids rest h.1)

  zeros-bytes : (n : ℕ) → (length (zeros sha n) ≡ n) × All (λ b. b < 256) (zeros sha n)
  zeros-bytes zero = (refl, tt)
  zeros-bytes (suc n) = (omega (arith, (zeros-bytes n).0), (omega arith, (zeros-bytes n).1))

  text_of_part :
      (o : Option Bytes) (key : Bytes)
      → o ≡ some key
      → (length (or_empty (part_of o)) ≡ 52)
        × ((part : Bytes) × (decode_string (or_empty (part_of o)) ≡ some part))
  text_of_part o key e = rw e ((hash_text key).0, (sha key, (hash_text key).1))

  IsDecoded-key :
      (keys : List (ℕ × Bytes)) (id : ℕ) (v : Bytes)
      → lookup id (parts_from_keys sha keys) ≡ some v
      → IsDecoded (parts_from_keys sha keys) id
  IsDecoded-key keys id v h =
      let e = sym (lookup-parts_from_keys id keys) ∙ h in
      rw (lookup-parts_from_keys id keys) (elim (Option-cases (lookup id keys)) [
        | inl missing ↦ absurd (no_part (rw missing at e))
        | inr (key, found) ↦ text_of_part (lookup id keys) key found
      ])
    where
      no_part : {v : Bytes} → part_of none ≡ some v → ⊥
      no_part e = cc

ids_known : (m : List (ℕ × Bytes)) → All (λ id. (v : Bytes) × (lookup id m ≡ some v)) (ids_of m)
ids_known [] = tt
ids_known ((k, v) ∷ rest) =
    ((v, ground arith), All-map (ids_of rest) (λ id h. later id h) (ids_known rest))
  where
    later :
        (id : ℕ)
        → ((w : Bytes) × (lookup id rest ≡ some w))
        → (w : Bytes) × ((if k == id then some v else lookup id rest) ≡ some w)
    later id (w, e) = elim (Bool-cases (k == id)) [
      | inl same ↦ (v, rw same refl)
      | inr other ↦ (w, rw (other, e) refl)
    ]

insert-nonempty : (k : ℕ) (v : Bytes) (m : List (ℕ × Bytes)) → (length (insert k v m) == 0) ≡ false
insert-nonempty k v [] = refl
insert-nonempty k v ((j, w) ∷ rest) = ground arith

parts_from_keys-nonempty :
    (sha : Bytes → Bytes) (keys : List (ℕ × Bytes))
    → keys ≢ []
    → (length (parts_from_keys sha keys) == 0) ≡ false
unfolding parts_from_keys
parts_from_keys-nonempty sha [] h = absurd (h refl)
parts_from_keys-nonempty sha ((j, key) ∷ rest) h = insert-nonempty j _ (parts_from_keys sha rest)

-- With a hash of 32 bytes, a hashname is derived from any keys, if there are some, and it is valid: 52
-- small letters and digits from 2 to 7.
pub from_keys-valid :
    (sha : Bytes → Bytes) (keys : List (ℕ × Bytes))
    → IsHash sha
    → keys ≢ []
    → (h : Bytes) × (from_keys sha keys ≡ ok h) × (valid h ≡ true)
unfolding from_keys from_intermediates
from_keys-valid sha keys good some_keys =
    let parts = parts_from_keys sha keys in
    let z = zeros-bytes sha good 32 in
    let decoded =
      All-map (ids_of parts) (λ id known. IsDecoded-key sha good keys id known.0 known.1)
        (ids_known parts) in
    rw (parts_from_keys-nonempty sha keys some_keys) (
      absorb_all-IsValid sha good parts (sort_ids (ids_of parts)) [] (zeros sha 32)
        (IsDecoded-insert_ids sha good parts (ids_of parts) decoded) z.0 z.1)
