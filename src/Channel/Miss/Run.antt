-- ===== src/Channel/Miss/Run.antt =====
-- e3x/channel.go: the loops of `buildMissList`: they list consecutive sequence numbers.
use mathlib.Core.List.{append_assoc}
use gogotelehash.Channel.Miss.{MissState, append_seq, append_gap, miss_seqs}
use gogotelehash.Channel.Types.{u32, sub32}
use gogotelehash.Prelude.{
  ℕ, zero, suc, ◌+◌, ◌^◌, ◌≤◌, ◌<◌, ◌≡◌, ap, ◌∙◌, false, List, [], ◌∷◌, ◌++◌, arith, leb, sym, ◌⊎◌,
  inl, inr, Bool, true, ltb, if_intro, ltb→lt,
}

-- `k` consecutive numbers from `s` on.
abbrev pub seqs_from : ℕ → ℕ → List ℕ
seqs_from s zero = []
seqs_from s (suc k) = s ∷ seqs_from (s + 1) k

pub seqs_from-concat : (s k : ℕ) → seqs_from s (suc k) ≡ seqs_from s k ++ (s + k) ∷ []
seqs_from-concat s zero = ground arith
seqs_from-concat s (suc k) =
    ap (◌∷◌ s)
      (seqs_from-concat (s + 1) k ∙ ap (λ (x : ℕ). seqs_from (s + 1) k ++ x ∷ []) (omega arith))

seqs_from-snoc :
    (s k n : ℕ) (rest : List ℕ)
    → n ≡ s + k
    → seqs_from s k ++ n ∷ rest ≡ seqs_from s (suc k) ++ rest
seqs_from-snoc s k n rest h = sym (
    ap (λ (l : List ℕ). l ++ rest) (seqs_from-concat s k)
    ∙ append_assoc (seqs_from s k) ((s + k) ∷ []) rest
    ∙ ap (λ (x : ℕ). seqs_from s k ++ x ∷ rest) (sym h))

-- After a part of either loop, the list stands for `k` consecutive numbers from `g` on, at most up
-- to `top`, and the loop is left when there are 99 of them.
pub record Run (i g top : ℕ) (t : MissState) : Type 0 where
  pub k : ℕ
  pub decodes :
      (rest : List ℕ) → miss_seqs i (t.miss ++ rest) ≡ seqs_from g k ++ miss_seqs t.last rest
  pub low : t.last < 2 ^ 32
  pub here : t.seq ≡ g + k
  pub counted : t.n ≡ k
  pub is_full : t.full ≡ leb 99 k
  pub small : k ≤ 99
  pub within : g + k ≤ top + 1

pub undo_sub32 : (a b : ℕ) → a < 2 ^ 32 → b < 2 ^ 32 → u32 (b + sub32 a b) ≡ a
undo_sub32 a b h k = omega arith

append_seq-Run :
    (i g top : ℕ) (t : MissState)
    → top + 1 < 2 ^ 32
    → Run i g top t
    → t.full ≡ false
    → t.seq ≤ top
    → Run i g top (append_seq t)
unfolding miss_seqs
append_seq-Run i g top t b r nf le = record {
  k = suc r.k;
  decodes = λ rest.
      rw
        (
          append_assoc t.miss (sub32 t.seq t.last ∷ []) rest,
          r.decodes (sub32 t.seq t.last ∷ rest),
          undo_sub32 t.seq t.last (omega (arith, le)) r.low,
        )
        (seqs_from-snoc g r.k t.seq (miss_seqs t.seq rest) r.here);
  low = omega arith;
  here = omega (arith, r.here);
  counted = omega (arith, r.counted);
  is_full = ground (arith, r.counted);
  small = ground (arith, r.is_full, r.small);
  within = omega (arith, r.here);
}

-- Where either inner loop comes to.
pub record Filled (bound : ℕ) (s t : MissState) : Type 0 where
  pub stops : (t.full ≡ true) ⊎ (bound ≤ t.seq)
  pub upto : s.seq ≤ bound → t.seq ≤ bound

pub append_gap-Run :
    (i g top bound : ℕ) (test : ℕ → Bool)
    → top + 1 < 2 ^ 32
    → bound ≤ top + 1
    → ((seq : ℕ) → test seq ≡ ltb seq bound)
    → (fuel : ℕ) (s : MissState) → 100 ≤ s.n + fuel
    → s.full ≡ false
    → Run i g top s
    → Run i g top (append_gap fuel test s) × Filled bound s (append_gap fuel test s)
unfolding append_gap
append_gap-Run i g top bound test b le same zero s h nf r =
    absurd (ground (arith, r.is_full, r.counted))
append_gap-Run i g top bound test b le same (suc fuel) s h nf r =
    let P = λ (t : MissState). Run i g top t × Filled bound s t in
    let next = append_seq s in
    if_intro P (test s.seq)
      (λ more.
        let le' : s.seq < bound = ltb→lt s.seq bound (sym (same s.seq) ∙ more) in
        let r' = append_seq-Run i g top s b r nf (omega arith) in
        if_intro P next.full (λ full. (r', record { stops = inl full; upto = λ k. omega arith }))
          (λ room.
            let (r'', f) =
              append_gap-Run i g top bound test b le same fuel next (omega arith) room r' in
            (r'', record { stops = f.stops; upto = λ k. f.upto (omega arith) })))
      (λ last.
        let ge : bound ≤ s.seq = ground (arith, same s.seq) in
        (r, record { stops = inr ge; upto = λ k. k }))
