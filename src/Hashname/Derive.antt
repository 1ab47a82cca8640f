-- ===== src/Hashname/Derive.antt =====
-- internal/hashname/hashname.go: the derivation of a hashname. A map is the list of its entries in
-- the order of one iteration; a key stands for its public bytes. SHA-256 is a parameter.
use gogotelehash.Hashname.Base32.{encode_to_string, decode_string, valid_string}
use gogotelehash.Lob.Packet.{Bytes}
use gogotelehash.Prelude.Map.{lookup, insert}
use gogotelehash.Prelude.{
  ℕ, zero, suc, Bool, false, not, Option, none, some, List, [], ◌∷◌, ◌++◌, leb, ◌==◌, if◌then◌else◌,
  length, take,
}

pub data Derived : Type 0 where
  ok : Bytes → Derived
  no_intermediate_parts invalid_intermediate_part : Derived

-- `Valid`
unfoldable pub valid : Bytes → Bool
unfolding valid_string
valid h = if not (length h == 52) then false else valid_string h

-- `ids = append(ids, int(id))`, and `sort.Ints`.
abbrev pub ids_of {ℓ} : {V : Type ℓ} → List (ℕ × V) → List ℕ
ids_of [] = []
ids_of ((id, v) ∷ rest) = id ∷ ids_of rest

abbrev pub insert_id : ℕ → List ℕ → List ℕ
insert_id n [] = n ∷ []
insert_id n (m ∷ rest) = let later = m ∷ insert_id n rest in if leb n m then n ∷ m ∷ rest else later

abbrev pub sort_ids : List ℕ → List ℕ
sort_ids [] = []
sort_ids (n ∷ rest) = insert_id n (sort_ids rest)

-- `parts[uint8(id)]`, which is empty for a missing key.
abbrev pub or_empty : Option Bytes → Bytes
or_empty none = []
or_empty (some s) = s

module _ (sha : Bytes → Bytes) where
  -- The body of the loop: `pending` was written to the hash since its last reset. The new pair is what
  -- is pending and what `buf` holds.
  abbrev pub absorb : ℕ → Bytes → Bytes → Bytes
  absorb id part pending = sha (sha (pending ++ id ∷ []) ++ part)

  abbrev pub then_absorb : Option Bytes → (Bytes → Derived) → Derived
  then_absorb none k = invalid_intermediate_part
  then_absorb (some part) k = k part

  unfoldable pub absorb_all : List (ℕ × Bytes) → List ℕ → Bytes → Bytes → Derived
  absorb_all parts [] pending buf = ok (encode_to_string buf)
  absorb_all parts (id ∷ rest) pending buf =
      let part_string = or_empty (lookup id parts) in
      if not (length part_string == 52)
      then invalid_intermediate_part
      else then_absorb (decode_string part_string)
          (λ part. absorb_all parts rest (absorb id part pending) (absorb id part pending))

  abbrev pub zeros : ℕ → Bytes
  zeros zero = []
  zeros (suc n) = 0 ∷ zeros n

  unfoldable pub from_intermediates : List (ℕ × Bytes) → Derived
  unfolding absorb_all
  from_intermediates parts =
      if length parts == 0
      then no_intermediate_parts
      else absorb_all parts (sort_ids (ids_of parts)) [] (zeros 32)

  unfoldable pub parts_from_keys : List (ℕ × Bytes) → List (ℕ × Bytes)
  parts_from_keys [] = []
  parts_from_keys ((id, key) ∷ rest) =
      insert id (take 52 (encode_to_string (sha key))) (parts_from_keys rest)

  unfoldable pub from_keys : List (ℕ × Bytes) → Derived
  unfolding from_intermediates parts_from_keys
  from_keys keys = from_intermediates (parts_from_keys keys)

  -- `for k, v := range intermediates { all[k] = v }`
  unfoldable pub copied : List (ℕ × Bytes) → List (ℕ × Bytes)
  copied [] = []
  copied ((k, v) ∷ rest) = insert k v (copied rest)

  unfoldable pub from_key_and_intermediates : ℕ → Bytes → List (ℕ × Bytes) → Derived
  unfolding copied from_intermediates
  from_key_and_intermediates id key intermediates =
      from_intermediates (insert id (encode_to_string (sha key)) (copied intermediates))
