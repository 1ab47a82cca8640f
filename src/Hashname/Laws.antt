-- ===== src/Hashname/Laws.antt =====
-- internal/hashname/hashname.go: the hashname does not depend on the order of a map, and the three
-- ways to derive one agree.
use gogotelehash.Hashname.Base32.{decode_string}
use gogotelehash.Hashname.Derive.{
  Derived, ids_of, insert_id, sort_ids, or_empty, then_absorb, absorb_all, zeros,
  from_intermediates,
}
use gogotelehash.Lob.Packet.{Bytes}
use gogotelehash.Prelude.Map.{lookup, insert, lookup-insert}
use gogotelehash.Prelude.{
  ℕ, suc, ◌<◌, ◌≡◌, refl, sym, ap, ◌∙◌, subst, inl, inr, Bool, true, false, not, ◌||◌, Option, none,
  some, List, [], ◌∷◌, arith, ltb, leb, ◌==◌, if◌then◌else◌, if_intro, ltb→lt, ==_iff, Bool-cases,
  length, All, All-map,
}

abbrev has : ℕ → List ℕ → Bool
has k [] = false
has k (n ∷ rest) = (n == k) || has k rest

-- Strictly ascending.
abbrev Ascending : List ℕ → Type 0
Ascending [] = Unit
Ascending (n ∷ rest) = All (λ m. n < m) rest × Ascending rest

has-below : (k : ℕ) (l : List ℕ) → All (λ m. k < m) l → has k l ≡ false
has-below k [] h = refl
has-below k (n ∷ rest) h = ground (arith, has-below k rest h.1)

-- Ascending lists with the same members are the same.
Ascending-unique :
    (l m : List ℕ) → Ascending l → Ascending m → ((k : ℕ) → has k l ≡ has k m) → l ≡ m
Ascending-unique [] [] a b h = refl
Ascending-unique [] (y ∷ ys) a b h = absurd (ground (arith, h y))
Ascending-unique (x ∷ xs) [] a b h = absurd (ground (arith, h x))
Ascending-unique (x ∷ xs) (y ∷ ys) a b h =
    let same : x ≡ y = same_head x y xs ys a b h in
    let tails : xs ≡ ys =
      Ascending-unique xs ys a.1 b.1
        (λ k. ground (arith, h k, same, has-below x xs a.0, has-below y ys b.0)) in
    cc
  where
    smaller :
        (x y : ℕ) (xs ys : List ℕ)
        → Ascending (y ∷ ys)
        → has x (x ∷ xs) ≡ has x (y ∷ ys)
        → ltb x y ≡ false
    smaller x y xs ys b h = elim (Bool-cases (ltb x y)) [
      | inl lt ↦
          let below = has-below x ys (All-map ys (λ k r. omega (arith, ltb→lt x y lt)) b.0) in
          absurd (ground arith)
      | inr le ↦ le
    ]

    same_head :
        (x y : ℕ) (xs ys : List ℕ)
        → Ascending (x ∷ xs)
        → Ascending (y ∷ ys)
        → ((k : ℕ) → has k (x ∷ xs) ≡ has k (y ∷ ys))
        → x ≡ y
    same_head x y xs ys a b h =
        let p = smaller x y xs ys b (h x) in
        let q = smaller y x ys xs a (sym (h y)) in ground (arith, p, q)

has-insert_id : (k n : ℕ) (l : List ℕ) → has k (insert_id n l) ≡ ((n == k) || has k l)
has-insert_id k n [] = refl
has-insert_id k n (m ∷ rest) = ground (arith, has-insert_id k n rest)

has-sort_ids : (k : ℕ) (l : List ℕ) → has k (sort_ids l) ≡ has k l
has-sort_ids k [] = refl
has-sort_ids k (n ∷ rest) =
    has-insert_id k n (sort_ids rest) ∙ ap (λ b. (n == k) || b) (has-sort_ids k rest)

pub insert_id-All : (P : ℕ → Type 0) (n : ℕ) (l : List ℕ) → P n → All P l → All P (insert_id n l)
insert_id-All P n [] p h = (p, tt)
insert_id-All P n (m ∷ rest) p h =
    if_intro (All P) (leb n m) (λ _. (p, h)) (λ _. (h.0, insert_id-All P n rest p h.1))

insert_id-Ascending :
    (n : ℕ) (l : List ℕ) → has n l ≡ false → Ascending l → Ascending (insert_id n l)
insert_id-Ascending n [] h a = (tt, tt)
insert_id-Ascending n (m ∷ rest) h a =
    if_intro Ascending (leb n m)
      (λ small. let lt : n < m = ground arith in ((lt, All-map rest (λ k b. omega arith) a.0), a))
      (λ big. (
        insert_id-All (λ k. m < k) n rest (ground arith) a.0,
        insert_id-Ascending n rest (ground arith) a.1,
      ))

-- No key twice, as in a map.
abbrev pub IsMap {ℓ} : {V : Type ℓ} → List (ℕ × V) → Type ℓ
IsMap [] = Unit
IsMap ((k, v) ∷ rest) = (lookup k rest ≡ none) × IsMap rest

module _ {ℓ} {V : Type ℓ} where
  is_there : Option V → Bool
  is_there none = false
  is_there (some v) = true

  has-ids_of : (k : ℕ) (m : List (ℕ × V)) → has k (ids_of m) ≡ is_there (lookup k m)
  unfolding is_there
  has-ids_of k [] = refl
  has-ids_of k ((j, v) ∷ rest) = ground (arith, has-ids_of k rest)

  sorted_ids-Ascending : (m : List (ℕ × V)) → IsMap m → Ascending (sort_ids (ids_of m))
  unfolding is_there
  sorted_ids-Ascending [] h = tt
  sorted_ids-Ascending ((k, v) ∷ rest) h =
      insert_id-Ascending k (sort_ids (ids_of rest))
        (has-sort_ids k (ids_of rest) ∙ has-ids_of k rest ∙ ap is_there h.0)
        (sorted_ids-Ascending rest h.1)

  same_ids :
      (m n : List (ℕ × V))
      → IsMap m
      → IsMap n
      → ((k : ℕ) → lookup k m ≡ lookup k n)
      → sort_ids (ids_of m) ≡ sort_ids (ids_of n)
  same_ids m n a b h =
      Ascending-unique _ _ (sorted_ids-Ascending m a) (sorted_ids-Ascending n b) (λ k.
        has-sort_ids k (ids_of m)
        ∙ has-ids_of k m
        ∙ ap is_there (h k)
        ∙ sym (has-ids_of k n)
        ∙ sym (has-sort_ids k (ids_of n)))

  pub insert-IsMap : (k : ℕ) (v : V) (m : List (ℕ × V)) → IsMap m → IsMap (insert k v m)
  insert-IsMap k v [] h = (refl, tt)
  insert-IsMap k v ((j, w) ∷ rest) h =
      if_intro IsMap (j == k)
        (λ same. (subst (λ (i : ℕ). lookup i rest ≡ none) ((==_iff j k).0 same) h.0, h.1))
        (λ other.
          let apart : (k == j) ≡ false = ground arith in
          (lookup-insert k j v rest ∙ rw apart h.0, insert-IsMap k v rest h.1))

length-insert_id : (n : ℕ) (l : List ℕ) → length (insert_id n l) ≡ suc (length l)
length-insert_id n [] = refl
length-insert_id n (m ∷ rest) = ground (arith, length-insert_id n rest)

length-sort_ids {ℓ} : {V : Type ℓ} (m : List (ℕ × V)) → length (sort_ids (ids_of m)) ≡ length m
length-sort_ids [] = refl
length-sort_ids ((k, v) ∷ rest) =
    length-insert_id k (sort_ids (ids_of rest)) ∙ ap suc (length-sort_ids rest)

-- The loop looks at nothing but the values of the keys.
absorb_all-same :
    (sha : Bytes → Bytes) (m n : List (ℕ × Bytes)) (ids : List ℕ) (pending buf : Bytes)
    → ((k : ℕ) → lookup k m ≡ lookup k n)
    → absorb_all sha m ids pending buf ≡ absorb_all sha n ids pending buf
unfolding absorb_all
absorb_all-same sha m n [] pending buf h = refl
absorb_all-same sha m n (id ∷ rest) pending buf h = rw (h id) (
    same_branches (not (length (or_empty (lookup id n)) == 52))
      (decode_string (or_empty (lookup id n))) (λ part. absorb_all-same sha m n rest _ _ h))
  where
    same_branches :
        (b : Bool) (o : Option Bytes) {k l : Bytes → Derived}
        → ((part : Bytes) → k part ≡ l part)
        → (if b then Derived.invalid_intermediate_part else then_absorb sha o k)
          ≡ (if b then Derived.invalid_intermediate_part else then_absorb sha o l)
    same_branches true o h = refl
    same_branches false none h = refl
    same_branches false (some part) h = h part

-- Two maps with the same values give the same hashname, in whatever order they are iterated over.
pub from_intermediates-same :
    (sha : Bytes → Bytes) (m n : List (ℕ × Bytes))
    → IsMap m
    → IsMap n
    → ((k : ℕ) → lookup k m ≡ lookup k n)
    → from_intermediates sha m ≡ from_intermediates sha n
unfolding from_intermediates
from_intermediates-same sha m n a b h =
    let ids = same_ids m n a b h in
    let len : length m ≡ length n = sym (length-sort_ids m) ∙ ap length ids ∙ length-sort_ids n in
    rw (len, ids)
      (ap (λ (d : Derived). if length n == 0 then Derived.no_intermediate_parts else d)
        (absorb_all-same sha m n (sort_ids (ids_of n)) [] (zeros sha 32) h))
