-- ===== src/Channel/Miss/Decode.antt =====
-- e3x/channel.go: what the peer reads out of the miss list that `buildMissList` makes.
use Prim.Native.Nat.{min}
use mathlib.Core.List.{append-nil}
use gogotelehash.Channel.Miss.{
  MissState, append_gap, scan_buffer, start_miss, collect_miss, build_miss_list, miss_seqs,
}
use gogotelehash.Channel.Miss.Run.{undo_sub32, seqs_from, Run, append_gap-Run}
use gogotelehash.Channel.Ascends.{Ascends, AtMost}
use gogotelehash.Channel.Invariant.Defs.{view, IsOrdered}
use gogotelehash.Channel.Types.{Channel, ReadBufferEntry, u32, sub32, read_buffer_size}
use gogotelehash.Prelude.{
  ℕ, ◌+◌, ◌-◌, ◌^◌, ◌≤◌, ◌<◌, ◌≡◌, refl, ap, inl, inr, false, List, [], ◌∷◌, arith, ltb, ◌==◌,
  if◌then◌else◌, if_intro, Bool-cases, sym, ◌∙◌, subst, ◌⊎◌, true, ◌++◌, leb,
}

-- The first number from `s` on that is not buffered, in an ascending buffer that starts at `s` or
-- behind it.
abbrev pub first_gap : ℕ → List ReadBufferEntry → ℕ
first_gap s [] = s
first_gap s (e ∷ es) = if s == e.seq then first_gap (s + 1) es else s

scan_after-Run :
    (i g top : ℕ) (es : List ReadBufferEntry) (s : MissState)
    → top + 1 < 2 ^ 32
    → Run i g top s
    → s.full ≡ false
    → Ascends s.seq es
    → AtMost top es
    → Run i g top (scan_buffer es s)
unfolding scan_buffer
scan_after-Run i g top [] s b r nf a m = r
scan_after-Run i g top (e ∷ es) s b r nf a m =
    let next = append_gap read_buffer_size (λ seq. ltb seq e.seq) s in
    let (r', f) =
      append_gap-Run i g top e.seq (λ seq. ltb seq e.seq) b (omega (arith, m.0)) (λ seq. refl)
        read_buffer_size s (omega arith) nf r in
    let up : next.seq ≤ e.seq = f.upto (omega (arith, a.0)) in
    let other : (s.seq == e.seq) ≡ false = ground (arith, a.0) in
    rw other (
      if_intro (Run i g top) next.full (λ full. r')
        (λ room.
          let at : next.seq ≡ e.seq = ground (arith, f.stops, up) in
          scan_after-Run i g top es next b r' room (rw at a.1) m.1))

-- Nothing is listed yet.
record IsStart (i : ℕ) (s : MissState) : Type 0 where
  none_listed : s.miss ≡ []
  last : s.last ≡ i
  none_counted : s.n ≡ 0
  not_full : s.full ≡ false

IsStart-Run :
    (i top : ℕ) (s : MissState) → i < 2 ^ 32 → s.seq ≤ top + 1 → IsStart i s → Run i s.seq top s
unfolding miss_seqs
IsStart-Run i top s small le h = record {
  k = 0;
  decodes = λ rest. rw (h.none_listed, h.last);
  low = omega (arith, h.last);
  here = omega arith;
  counted = h.none_counted;
  is_full = h.not_full;
  small = omega arith;
  within = omega arith;
}

scan_before-Run :
    (i top : ℕ) (es : List ReadBufferEntry) (s : MissState) (j : ℕ)
    → top + 1 < 2 ^ 32
    → i < 2 ^ 32
    → IsStart i s
    → s.seq ≡ j + 1
    → s.seq ≤ top + 1
    → Ascends j es
    → AtMost top es
    → Run i (first_gap s.seq es) top (scan_buffer es s)
unfolding scan_buffer
scan_before-Run i top [] s j b small h at le a m = IsStart-Run i top s small le h
scan_before-Run i top (e ∷ es) s j b small h at le a m = elim (Bool-cases (s.seq == e.seq)) [
  | inl same ↦
      let s1 = record s { seq = u32 (s.seq + 1) } in
      let up : s1.seq ≡ s.seq + 1 = ground (arith, m.0) in
      let h1 : IsStart i s1 = record {
        none_listed = h.none_listed;
        last = h.last;
        none_counted = h.none_counted;
        not_full = h.not_full;
      } in
      let r =
        scan_before-Run i top es s1 e.seq b small h1 (ground (arith, up)) (ground (arith, up, m.0))
          a.1 m.1 in
      rw same (
        if_intro (Run i (first_gap (s.seq + 1) es) top) s.full (λ full. cc (sym h.not_full ∙ full))
          (λ _. subst (λ q. Run i (first_gap q es) top (scan_buffer es s1)) up r))
  | inr other ↦
      let eq : first_gap s.seq (e ∷ es) ≡ s.seq = rw other in
      subst (λ g. Run i g top (scan_buffer (e ∷ es) s)) (sym eq)
        (scan_after-Run i s.seq top (e ∷ es) s b (IsStart-Run i top s small le h) h.not_full
          (ground arith, a.1) m)
]

-- Both loops list `k` numbers from the first gap on: all up to `top`, or 99 of them.
record Complete (i g top : ℕ) (t : MissState) : Type 0 where
  run : Run i g top t
  all_or_full : (top + 1 ≤ g + run.k) ⊎ (run.k ≡ 99)

collect_miss-Complete :
    (c : Channel)
    → c.i_seen_seq + 1 < 2 ^ 32
    → c.i_seq ≤ c.i_seen_seq
    → Ascends c.i_seq c.read_buffer
    → AtMost c.i_seen_seq c.read_buffer
    → Complete c.i_seq (first_gap (c.i_seq + 1) c.read_buffer) c.i_seen_seq (collect_miss c)
unfolding collect_miss
collect_miss-Complete c b le a m =
    let top = c.i_seen_seq in
    let g = first_gap (c.i_seq + 1) c.read_buffer in
    let s0 = start_miss c in
    let at : s0.seq ≡ c.i_seq + 1 = omega arith in
    let h0 : IsStart c.i_seq s0 = record {
      none_listed = refl;
      last = refl;
      none_counted = refl;
      not_full = refl;
    } in
    let s = scan_buffer c.read_buffer s0 in
    let r0 =
      scan_before-Run c.i_seq top c.read_buffer s0 c.i_seq b (omega arith) h0 at (omega (arith, at))
        a m in
    let r : Run c.i_seq g top s =
      subst (λ q. Run c.i_seq (first_gap q c.read_buffer) top s) at r0 in
    if_intro (Complete c.i_seq g top) s.full
      (λ full. record { run = r; all_or_full = inr (ground (arith, full, r.is_full, r.small)) })
      (λ room.
        let (r', f) =
          append_gap-Run c.i_seq g top (top + 1) (λ seq. leb seq top) b (omega arith)
            (λ seq. ground arith) read_buffer_size s (omega arith) room r in
        record { run = r'; all_or_full = ground (arith, f.stops, r'.is_full, r'.small, r'.here) })

-- How many numbers are asked for: all from the first gap up to the highest one seen, at most 99.
abbrev pub missing_count : Channel → ℕ
missing_count c = min (c.i_seen_seq + 1 - first_gap (c.i_seq + 1) c.read_buffer) 99

-- They, and behind them the highest number that the read buffer has room for.
abbrev pub requested : Channel → List ℕ
requested c =
    if missing_count c == 0
    then []
    else seqs_from (first_gap (c.i_seq + 1) c.read_buffer) (missing_count c)
      ++ u32 (c.i_seq + read_buffer_size) ∷ []

decode_miss_list :
    (c : Channel) (g top : ℕ) (t : MissState)
    → Run c.i_seq g top t
    → miss_seqs c.i_seq (
        if ltb 0 t.n
        then t.miss ++ sub32 (u32 (c.i_seq + read_buffer_size)) t.last ∷ []
        else t.miss)
      ≡ (if t.n == 0 then [] else seqs_from g t.n ++ u32 (c.i_seq + read_buffer_size) ∷ [])
unfolding miss_seqs
decode_miss_list c g top t r = elim (Bool-cases (ltb 0 t.n)) [
  | inl some_missing ↦
      let high = u32 (c.i_seq + read_buffer_size) in
      let other : (t.n == 0) ≡ false = ground arith in
      rw (some_missing, other)
        (r.decodes (sub32 high t.last ∷ [])
          ∙ ap (λ (x : ℕ). seqs_from g r.k ++ x ∷ []) (undo_sub32 high t.last (omega arith) r.low)
          ∙ ap (λ (n : ℕ). seqs_from g n ++ high ∷ []) (sym r.counted))
  | inr none_missing ↦
      let zero_n : (t.n == 0) ≡ true = ground arith in
      let k : r.k ≡ 0 = ground (arith, r.counted) in
      rw (none_missing, zero_n)
        (sym (ap (miss_seqs c.i_seq) (append-nil t.miss))
          ∙ r.decodes []
          ∙ ap (λ (n : ℕ). seqs_from g n ++ []) k)
]

-- On a reliable channel whose read side is in order and that has seen no number above 2^32 - 2,
-- the peer that decodes the miss list as `processMissingPackets` does is asked for every number
-- from the first gap of the read buffer up to the highest number seen (those of packets that are
-- buffered behind the gap included), but for no more than 99, and then for the number 100 behind
-- the last one read; where nothing is missing the list is empty.
pub miss_seqs-build_miss_list :
    (c : Channel)
    → IsOrdered (view c)
    → c.reliable ≡ true
    → c.i_seen_seq + 1 < 2 ^ 32
    → miss_seqs c.i_seq (build_miss_list c) ≡ requested c
unfolding build_miss_list
miss_seqs-build_miss_list c o rel b =
    let h = collect_miss-Complete c b (o.read_seen rel) o.ordered (o.seen rel) in
    let r = h.run in
    let count : (collect_miss c).n ≡ missing_count c =
      omega (arith, r.counted, h.all_or_full, r.within, r.small) in
    decode_miss_list c (first_gap (c.i_seq + 1) c.read_buffer) c.i_seen_seq (collect_miss c) r
    ∙ ap
        (λ (n : ℕ).
          if n == 0
          then []
          else seqs_from (first_gap (c.i_seq + 1) c.read_buffer) n
            ++ u32 (c.i_seq + read_buffer_size) ∷ [])
        count
