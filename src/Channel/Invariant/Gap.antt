-- ===== src/Channel/Invariant/Gap.antt =====
-- e3x/channel.go: a gap in the read buffer is never filled, since `IndexOf` takes every number below
-- a buffered one for a duplicate.
use gogotelehash.Channel.Guards.{block_read, head_differs}
use gogotelehash.Channel.Invariant.Defs.{ReadView, view, IsWellFormed}
use gogotelehash.Channel.Invariant.Grow.{Grows, Received, received_packet-Received}
use gogotelehash.Channel.Invariant.Order.{Kind, aside, reading, receiving, Step-Kind}
use gogotelehash.Channel.Invariant.Step.{Step-IsWellFormed}
use gogotelehash.Channel.Read.{done, Read, peek_packet, consume_read, then_consume}
use gogotelehash.Channel.Receive.{Outcome}
use gogotelehash.Channel.Step.{Reach, here, next}
use gogotelehash.Channel.Types.{Channel, ReadBufferEntry, u32}
use gogotelehash.Lob.Packet.{Packet}
use gogotelehash.Prelude.{
  ◌+◌, ◌<◌, ◌≡◌, ap, true, false, List, [], ◌∷◌, arith, refl, sym, ◌∙◌, subst, inl, inr, ◌++◌,
}

-- The packet behind the last one read has not come, and `e` is the first of those that have.
pub record HasGap (e : ReadBufferEntry) (v : ReadView) : Type 0 where
  pub rest : List ReadBufferEntry
  pub first : v.read_buffer ≡ e ∷ rest
  pub missing : v.i_seq + 1 < e.seq

-- Such a reader is stopped by a check, and then it changes nothing.
reading-HasGap :
    (c : Channel) (e : ReadBufferEntry) (r : Read)
    → HasGap e (view c)
    → block_read c ≡ false
    → then_consume (peek_packet c) ≡ done r
    → r.chan ≡ c
unfolding block_read peek_packet consume_read
reading-HasGap c e r g b h =
    let miss : head_differs c.read_buffer (u32 (c.i_seq + 1)) ≡ true =
      rw g.first (ground (arith, g.missing)) in
    ground (arith, miss)

receiving-HasGap :
    (c d : Channel) (e : ReadBufferEntry) (pkt : Packet) (o : Outcome)
    → HasGap e (view c)
    → Grows c d pkt o
    → HasGap e (view d)
receiving-HasGap c d e pkt o g k = elim k.buffer [
  | inl (no_accept, same) ↦ record {
    rest = g.rest;
    first = same ∙ g.first;
    missing = omega (arith, g.missing, k.same_read);
  }
  | inr (taken, (x, p, q, b, longer)) ↦ record {
    rest = g.rest ++ x ∷ [];
    first = longer ∙ ap (λ (s : List ReadBufferEntry). s ++ x ∷ []) g.first;
    missing = omega (arith, g.missing, k.same_read);
  }
]

Kind-HasGap :
    {c d : Channel} (e : ReadBufferEntry)
    → IsWellFormed c
    → HasGap e (view c)
    → Kind c d
    → HasGap e (view d) × (d.i_seq ≡ c.i_seq)
Kind-HasGap e w g (aside same) =
    (subst (HasGap e) (sym same) g, ap (λ (v : ReadView). v.i_seq) same)
Kind-HasGap {c} e w g (reading r b h same) =
    let stays = same ∙ ap view (reading-HasGap c e r g b h) in
    (subst (HasGap e) (sym stays) g, ap (λ (v : ReadView). v.i_seq) stays)
Kind-HasGap {c} {d} e w g (receiving fuel now pkt o h) =
    let k : Grows c d pkt o =
      subst (Received c pkt) h (received_packet-Received fuel now c pkt w) in
    (receiving-HasGap c d e pkt o g k, k.same_read)

-- Once the first packet buffered by a well-formed channel is not the next one to be read, no
-- packet is ever read again: under every interleaving of calls, received packets (retransmissions
-- of the missing one among them) and timers, that packet stays first in the buffer and the last
-- sequence number read stays the same.
pub Reach-HasGap :
    {c d : Channel} (e : ReadBufferEntry)
    → IsWellFormed c
    → HasGap e (view c)
    → Reach c d
    → HasGap e (view d) × (d.i_seq ≡ c.i_seq)
Reach-HasGap {c} {d} e w g r = let (w', g', same) = go r in (g', same)
  where
    go : {b : Channel} → Reach c b → IsWellFormed b × HasGap e (view b) × (b.i_seq ≡ c.i_seq)
    go here = (w, g, refl)
    go (next r s) =
        let (w', g', same) = go r in
        let (g'', step) = Kind-HasGap e w' g' (Step-Kind s) in
        (Step-IsWellFormed s w', g'', step ∙ same)
