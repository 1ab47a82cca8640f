-- ===== src/AddressBook/Sorting.antt =====
-- e3x/exchange_address_book.go: what `sort.Sort` gives for the order of the entries, and what a list
-- of entries keeps when it is rearranged, cut or changed in place.
use mathlib.Core.List.{Permᴰ}
use gogotelehash.AddressBook.{Entry, less}
use gogotelehash.Prelude.{
  ℕ, zero, suc, ◌≡◌, refl, sym, ap, ◌∙◌, subst, ◌≢◌, false, List, [], ◌∷◌, map, arith, length, take,
  All,
}

-- No entry is less than one before it.
abbrev pub Ordered : List Entry → Type 0
Ordered [] = Unit
Ordered (e ∷ rest) = All (λ f. less f e ≡ false) rest × Ordered rest

-- The contract of `sort.Sort`, which may place equal entries in any order.
pub record Sorts (sort : List Entry → List Entry) : Type 0 where
  pub rearranges : (l : List Entry) → Permᴰ l (sort l)
  pub ordered : (l : List Entry) → Ordered (sort l)

-- Each pipe has one entry.
abbrev pub Distinct : List Entry → Type 0
Distinct [] = Unit
Distinct (e ∷ rest) = All (λ f. f.pipe ≢ e.pipe) rest × Distinct rest

pub All-perm {ℓ κ} :
    {A : Type ℓ} (P : A → Type κ) {xs ys : List A} → Permᴰ xs ys → All P xs → All P ys
All-perm P Permᴰ.nil h = h
All-perm P (Permᴰ.cons e p) h = (subst P e h.0, All-perm P p h.1)
All-perm P (Permᴰ.swap e f) h = (subst P f h.1.0, (subst P e h.0, h.1.1))
All-perm P (Permᴰ.trans p q) h = All-perm P q (All-perm P p h)

pub length-perm {ℓ} : {A : Type ℓ} {xs ys : List A} → Permᴰ xs ys → length xs ≡ length ys
length-perm Permᴰ.nil = refl
length-perm (Permᴰ.cons e p) = omega (arith, length-perm p)
length-perm (Permᴰ.swap e f) = refl
length-perm (Permᴰ.trans p q) = length-perm p ∙ length-perm q

pub Distinct-perm : {xs ys : List Entry} → Permᴰ xs ys → Distinct xs → Distinct ys
Distinct-perm Permᴰ.nil h = h
Distinct-perm (Permᴰ.cons {a} {b} {l₁ = l₁} {l₂} e p) h = (
  subst (λ (x : Entry). All (λ f. f.pipe ≢ x.pipe) l₂) e (All-perm (λ f. f.pipe ≢ a.pipe) p h.0),
  Distinct-perm p h.1,
)
Distinct-perm (Permᴰ.swap {a' = a'} {b' = b'} {l = l} e f) h = (
  (
    λ same. h.0.0 (ap (λ (x : Entry). x.pipe) f ∙ sym same ∙ sym (ap (λ (x : Entry). x.pipe) e)),
    subst (λ (x : Entry). All (λ g. g.pipe ≢ x.pipe) l) f h.1.0,
  ),
  (subst (λ (x : Entry). All (λ g. g.pipe ≢ x.pipe) l) e h.0.1, h.1.1),
)
Distinct-perm (Permᴰ.trans p q) h = Distinct-perm q (Distinct-perm p h)

pub All-take {ℓ κ} :
    {A : Type ℓ} (P : A → Type κ) (n : ℕ) (xs : List A) → All P xs → All P (take n xs)
All-take P zero xs h = tt
All-take P (suc n) [] h = tt
All-take P (suc n) (x ∷ xs) h = (h.0, All-take P n xs h.1)

pub Distinct-take : (n : ℕ) (xs : List Entry) → Distinct xs → Distinct (take n xs)
Distinct-take zero xs h = tt
Distinct-take (suc n) [] h = tt
Distinct-take (suc n) (x ∷ xs) h = (All-take _ n xs h.0, Distinct-take n xs h.1)

pub Ordered-take : (n : ℕ) (xs : List Entry) → Ordered xs → Ordered (take n xs)
Ordered-take zero xs h = tt
Ordered-take (suc n) [] h = tt
Ordered-take (suc n) (x ∷ xs) h = (All-take _ n xs h.0, Ordered-take n xs h.1)

-- What a change of the entries keeps, if it keeps what the predicate reads.
pub Distinct-map :
    (f : Entry → Entry) (xs : List Entry)
    → ((e : Entry) → (f e).pipe ≡ e.pipe)
    → Distinct xs
    → Distinct (map f xs)
Distinct-map f [] k h = tt
Distinct-map f (x ∷ xs) k h = (All_map_pipe f x xs k h.0, Distinct-map f xs k h.1)
  where
    All_map_pipe :
        (f : Entry → Entry) (e : Entry) (xs : List Entry)
        → ((e : Entry) → (f e).pipe ≡ e.pipe)
        → All (λ g. g.pipe ≢ e.pipe) xs
        → All (λ g. g.pipe ≢ (f e).pipe) (map f xs)
    All_map_pipe f e [] k h = tt
    All_map_pipe f e (y ∷ ys) k h =
        ((λ same. h.0 (sym (k y) ∙ same ∙ k e)), All_map_pipe f e ys k h.1)
