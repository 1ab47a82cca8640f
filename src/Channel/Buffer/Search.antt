-- ===== src/Channel/Buffer/Search.antt =====
-- e3x/channel.go: what `sort.Search` and `IndexOf` find on an ordered buffer.
use gogotelehash.Channel.Ascends.{Ascends, Below}
use gogotelehash.Channel.Receive.{search_from, sort_search, seq_at, index_of}
use gogotelehash.Channel.Types.{ReadBufferEntry}
use gogotelehash.Prelude.{
  ℕ, zero, suc, ◌+◌, ◌-◌, ◌/◌, ◌<◌, ◌≤◌, ◌≡◌, Bool, true, false, arith, leb, ltb, Bool-cases, inr,
  inl, List, length, none, some, ◌∷◌, [], ◌↔◌, Option-cases,
}

-- Where the test fails below `i` and holds from `j` on, the result parts the two.
pub record Parts (n : ℕ) (f : ℕ → Bool) (r : ℕ) : Type 0 where
  pub within : r ≤ n
  pub fails : (k : ℕ) → k < r → f k ≡ false
  pub holds : (k : ℕ) → r ≤ k → k < n → f k ≡ true

abbrev Mono : ℕ → (ℕ → Bool) → Type 0
Mono n f = (a b : ℕ) → a ≤ b → b < n → f a ≡ true → f b ≡ true

false_below : (f : ℕ → Bool) (h k : ℕ) → f h ≡ false → (f k ≡ true → f h ≡ true) → f k ≡ false
false_below f h k down up = elim (Bool-cases (f k)) [ inl t ↦ cc (up t) | inr e ↦ e ]

search_from-Parts :
    (n : ℕ) (f : ℕ → Bool)
    → Mono n f
    → (fuel i j : ℕ) → i ≤ j
    → j ≤ n
    → j - i ≤ fuel
    → ((k : ℕ) → k < i → f k ≡ false)
    → ((k : ℕ) → j ≤ k → k < n → f k ≡ true)
    → Parts n f (search_from fuel f i j)
unfolding search_from
search_from-Parts n f mono zero i j ij jn h lo hi = record {
  within = omega arith;
  fails = lo;
  holds = λ k p q. hi k (omega arith) q;
}
search_from-Parts n f mono (suc fuel) i j ij jn h lo hi = elim (Bool-cases (ltb i j)) [
  | inr done ↦
      rw done (record { within = omega arith; fails = lo; holds = λ k p q. hi k (ground arith) q })
  | inl more ↦ rw more (elim (Bool-cases (f ((i + j) / 2))) [
    | inl up ↦ rw up (
        search_from-Parts n f mono fuel i ((i + j) / 2) (ground arith) (ground arith) (ground arith)
          lo (λ k p q. mono ((i + j) / 2) k p q up))
    | inr down ↦ rw down (
        search_from-Parts n f mono fuel ((i + j) / 2 + 1) j (ground arith) jn (ground arith)
          (λ k p.
            false_below f ((i + j) / 2) k down (mono k ((i + j) / 2) (omega arith) (ground arith)))
          hi)
  ])
]

pub sort_search-Parts : (n : ℕ) (f : ℕ → Bool) → Mono n f → Parts n f (sort_search n f)
unfolding sort_search
sort_search-Parts n f mono =
    search_from-Parts n f mono n 0 n (omega arith) (omega arith) (omega arith)
      (λ k p. absurd (omega arith)) (λ k p q. absurd (omega arith))

seq_at-gt : (n : ℕ) (s : List ReadBufferEntry) (i : ℕ) → Ascends n s → i < length s → n < seq_at s i
seq_at-gt n [] i a h = absurd (omega arith)
seq_at-gt n (e ∷ s) zero a h = a.0
seq_at-gt n (e ∷ s) (suc i) a h = omega (arith, seq_at-gt e.seq s i a.1)

seq_at_mono :
    (n : ℕ) (s : List ReadBufferEntry) (i j : ℕ)
    → Ascends n s
    → i ≤ j
    → j < length s
    → seq_at s i ≤ seq_at s j
seq_at_mono n [] i j a h k = absurd (omega arith)
seq_at_mono n (e ∷ s) zero zero a h k = omega arith
seq_at_mono n (e ∷ s) zero (suc j) a h k = omega (arith, seq_at-gt e.seq s j a.1)
seq_at_mono n (e ∷ s) (suc i) zero a h k = absurd (omega arith)
seq_at_mono n (e ∷ s) (suc i) (suc j) a h k =
    seq_at_mono e.seq s i j a.1 (omega arith) (omega arith)

Below-seq_at :
    (q : ℕ) (s : List ReadBufferEntry) → ((i : ℕ) → i < length s → seq_at s i < q) → Below q s
Below-seq_at q [] h = tt
Below-seq_at q (e ∷ s) h = (h 0 (omega arith), Below-seq_at q s (λ i p. h (suc i) (omega arith)))

index_of-Parts :
    (n : ℕ) (s : List ReadBufferEntry) (q : ℕ)
    → Ascends n s
    → Parts (length s) (λ i. leb q (seq_at s i)) (sort_search (length s) (λ i. leb q (seq_at s i)))
index_of-Parts n s q a =
    sort_search-Parts (length s) (λ i. leb q (seq_at s i))
      (λ i j h k t. ground (arith, seq_at_mono n s i j a h k))

-- `IndexOf` answers -1 only above every buffered sequence number.
pub index_of-none :
    (n : ℕ) (s : List ReadBufferEntry) (q : ℕ) → Ascends n s → index_of s q ≡ none → Below q s
unfolding index_of
index_of-none n s q a h =
    let p = index_of-Parts n s q a in Below-seq_at q s (λ i k. ground (arith, p.fails i))

-- Any other answer means that some buffered number is at least the one looked for.
pub index_of-some :
    (n : ℕ) (s : List ReadBufferEntry) (q i : ℕ)
    → Ascends n s
    → index_of s q ≡ some i
    → (i < length s) × (q ≤ seq_at s i)
unfolding index_of
index_of-some n s q i a h = let p = index_of-Parts n s q a in ground (arith, p.within, p.holds i)

Below-at : (q : ℕ) (s : List ReadBufferEntry) (i : ℕ) → Below q s → i < length s → seq_at s i < q
Below-at q [] i b h = absurd (omega arith)
Below-at q (e ∷ s) zero b h = b.0
Below-at q (e ∷ s) (suc i) b h = Below-at q s i b.1 (omega arith)

-- In a buffer that ascends from some number, `IndexOf` answers -1 just if every buffered number is below
-- the one looked for: a number that is missing below another one is found, too.
index_of_iff :
    (n : ℕ) (s : List ReadBufferEntry) (q : ℕ) → Ascends n s → (index_of s q ≡ none) ↔ Below q s
index_of_iff n s q a = (
  index_of-none n s q a,
  λ below. elim (Option-cases (index_of s q)) [
    | inl e ↦ e
    | inr (i, e) ↦
        let (inside, le) = index_of-some n s q i a e in
        absurd (omega (arith, le, Below-at q s i below inside))
  ],
)
