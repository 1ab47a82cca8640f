-- ===== src/Channel/Miss.antt =====
-- e3x/channel.go: `buildMissList`, and the walk over a miss list in `processMissingPackets`.
pub mod Run
pub mod Decode
use gogotelehash.Prelude.{
  ℕ, zero, suc, ◌+◌, ◌-◌, Bool, true, false, List, [], ◌∷◌, ◌++◌, if◌then◌else◌, ◌==◌, leb, ltb,
  ◌/◌, ◌<◌, ap,
}
use gogotelehash.Channel.Types.{Channel, ReadBufferEntry, read_buffer_size, u32, sub32}

-- The variables of `buildMissList`; `full` is set by the `goto`.
pub record MissState : Type 0 where
  pub miss : List ℕ
  pub last : ℕ
  pub n : ℕ
  pub seq : ℕ
  pub full : Bool

-- One round of either inner loop.
abbrev pub append_seq : MissState → MissState
append_seq s = record {
  miss = s.miss ++ sub32 s.seq s.last ∷ [];
  last = s.seq;
  n = s.n + 1;
  seq = u32 (s.seq + 1);
  full = leb (read_buffer_size - 1) (s.n + 1);
}

-- `for seq < e.seq { … }` and `for seq <= c.iSeenSeq { … }`: the test is on `seq`. Each round
-- raises `n`, and the loop is left at 99: a fuel of 100 rounds is enough.
unfoldable pub append_gap : ℕ → (ℕ → Bool) → MissState → MissState
append_gap zero test s = s
append_gap (suc fuel) test s =
    let next = append_seq s in
    let rest = append_gap fuel test next in
    let more = if next.full then next else rest in if test s.seq then more else s

-- `for _, e := range c.readBuffer { … }`.
unfoldable pub scan_buffer : List ReadBufferEntry → MissState → MissState
scan_buffer [] s = s
scan_buffer (e ∷ es) s =
    let after = append_gap read_buffer_size (λ seq. ltb seq e.seq) s in
    let next = if s.seq == e.seq then record s { seq = u32 (s.seq + 1) } else after in
    let rest = scan_buffer es next in if next.full then next else rest

abbrev pub start_miss : Channel → MissState
start_miss c = record { miss = []; last = c.i_seq; n = 0; seq = u32 (c.i_seq + 1); full = false }

-- Both loops, up to the label `ADD_HIGHEST_ACCEPTABLE_SEQ`.
unfoldable pub collect_miss : Channel → MissState
collect_miss c =
    let s = scan_buffer c.read_buffer (start_miss c) in
    if s.full then s else append_gap read_buffer_size (λ seq. leb seq c.i_seen_seq) s

unfoldable pub build_miss_list : Channel → List ℕ
build_miss_list c =
    let s = collect_miss c in
    if ltb 0 s.n then s.miss ++ sub32 (u32 (c.i_seq + read_buffer_size)) s.last ∷ [] else s.miss

-- The sequence numbers that the reader of a miss list visits: `seq := last + delta; last = seq`.
unfoldable pub miss_seqs : ℕ → List ℕ → List ℕ
miss_seqs last [] = []
miss_seqs last (delta ∷ miss) = u32 (last + delta) ∷ miss_seqs (u32 (last + delta)) miss
