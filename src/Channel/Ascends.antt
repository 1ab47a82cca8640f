-- ===== src/Channel/Ascends.antt =====
-- e3x/channel.go: the order of the read buffer.
use gogotelehash.Prelude.{ℕ, ◌<◌, ◌≤◌, List, [], ◌∷◌, ◌++◌, arith, All}
use gogotelehash.Channel.Types.{ReadBufferEntry}

-- The sequence numbers rise strictly, and all lie above `n`.
abbrev pub Ascends : ℕ → List ReadBufferEntry → Type 0
Ascends n [] = Unit {0}
Ascends n (e ∷ es) = (n < e.seq) × Ascends e.seq es

-- Every sequence number is at most `n`, or below it.
abbrev pub AtMost : ℕ → List ReadBufferEntry → Type 0
AtMost n = All (λ e. e.seq ≤ n)

abbrev pub Below : ℕ → List ReadBufferEntry → Type 0
Below n = All (λ e. e.seq < n)

pub Ascends-concat :
    (n : ℕ) (s : List ReadBufferEntry) (e : ReadBufferEntry)
    → n < e.seq
    → Ascends n s
    → Below e.seq s
    → Ascends n (s ++ e ∷ [])
Ascends-concat n [] e h a b = (h, tt)
Ascends-concat n (x ∷ s) e h a b = (a.0, Ascends-concat x.seq s e b.0 a.1 b.1)

pub AtMost-mono : {m n : ℕ} (s : List ReadBufferEntry) → m ≤ n → AtMost m s → AtMost n s
AtMost-mono [] h a = tt
AtMost-mono (x ∷ s) h a = (omega arith, AtMost-mono s h a.1)

pub Below-AtMost : (n : ℕ) (s : List ReadBufferEntry) → Below n s → AtMost n s
Below-AtMost n [] b = tt
Below-AtMost n (x ∷ s) b = (omega arith, Below-AtMost n s b.1)
