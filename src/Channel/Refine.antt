-- ===== src/Channel/Refine.antt =====
-- e3x/channel.go: what a channel promises to its reader, as a machine of its own. It knows only the
-- packets that were accepted and those that were handed out.
use gogotelehash.Channel.Invariant.Defs.{ReadView, view, IsWellFormed}
use gogotelehash.Channel.Invariant.Delivery.{
  Delivers, stopped, taken, Outcomes, peek_packet-Outcomes, read_packet_attempt-Delivers,
}
use gogotelehash.Channel.Invariant.Grow.{Grows, Received, received_packet-Received}
use gogotelehash.Channel.Invariant.Order.{Kind, aside, reading, receiving, Step-Kind}
use gogotelehash.Channel.Invariant.Step.{Step-IsWellFormed}
use gogotelehash.Channel.Read.{done, Read, clean_headers, read_packet_attempt}
use gogotelehash.Channel.Step.{Reach, here, next}
use gogotelehash.Channel.Types.{Channel, ReadBufferEntry, eof}
use gogotelehash.Lob.Packet.{Packet}
use mathlib.Core.List.{append_assoc}
use gogotelehash.Prelude.{
  ◌+◌, ◌≡◌, ap, List, [], ◌∷◌, arith, refl, sym, ◌∙◌, subst, inl, inr, ◌++◌, length, ◌⊎◌, none,
  some, length-append,
}
use gogotelehash.Channel.Receive.{Outcome}

-- The packets accepted so far, and those that the reader has taken, both from the first on.
pub record History : Type 0 where
  pub accepted : List ReadBufferEntry
  pub handed : List ReadBufferEntry

-- The machine accepts a packet, or hands out the first one accepted that was not handed out yet,
-- if it carries the number of its turn.
pub data Moves (s : History) : History → Type 0 where
  stays : Moves s s
  accepts : (e : ReadBufferEntry) → Moves s (record s { accepted = s.accepted ++ e ∷ [] })
  hands :
      (e : ReadBufferEntry) (rest : List ReadBufferEntry)
      → s.accepted ≡ s.handed ++ (e ∷ rest)
      → e.seq ≡ length s.handed + 1
      → Moves s (record s { handed = s.handed ++ e ∷ [] })

pub data Runs (s : History) : History → Type 0 where
  halt : Runs s s
  turn : {t u : History} → Runs s t → Moves t u → Runs s u

-- The reading side holds what was accepted and not handed out, and counts what was.
pub record Represents (v : ReadView) (s : History) : Type 0 where
  pub pending : s.accepted ≡ s.handed ++ v.read_buffer
  pub counted : v.i_seq ≡ length s.handed

-- The machine's step when `ReadPacket` ends: none if it was stopped; else the packet handed out is
-- the one that the machine hands out, with cleaned headers, or a bare `end`.
pub record Answers (s t : History) (r : Read) : Type 0 where
  pub moves : Moves s t
  pub answer :
      ((t ≡ s) × (r.pkt ≡ none))
      ⊎ ((e : ReadBufferEntry) × (t.handed ≡ s.handed ++ e ∷ [])
          × ((r.pkt ≡ some (clean_headers e.pkt)) ⊎ ((r.pkt ≡ none) × (r.error ≡ some eof))))

Delivers-Answers :
    (c : Channel) (r : Read) (s : History)
    → Represents (view c) s
    → Delivers c r
    → (t : History) × Answers s t r × Represents (view r.chan) t
Delivers-Answers c r s p (stopped err same no_pkt e) = (
  s,
  record { moves = stays; answer = inl (refl, no_pkt) },
  subst (λ (d : Channel). Represents (view d) s) (sym same) p,
)
Delivers-Answers c r s p (taken e rest b n i q out) =
    let pending = p.pending ∙ ap (λ (l : List ReadBufferEntry). s.handed ++ l) b in
    (
      record s { handed = s.handed ++ e ∷ [] },
      record {
        moves = hands e rest pending (omega (arith, n, p.counted));
        answer = inr (e, refl, elim out [ inl o ↦ inl o.0 | inr o ↦ inr (o.0, o.1) ]);
      },
      record {
        pending =
            pending
            ∙ sym (append_assoc s.handed (e ∷ []) rest)
            ∙ ap (λ (l : List ReadBufferEntry). (s.handed ++ e ∷ []) ++ l) (sym q);
        counted = omega (arith, i, p.counted, length-append s.handed (e ∷ []));
      },
    )

Grows-Moves :
    (c d : Channel) (pkt : Packet) (o : Outcome) (s : History)
    → Represents (view c) s
    → Grows c d pkt o
    → (t : History) × Moves s t × Represents (view d) t
Grows-Moves c d pkt o s p k = elim k.buffer [
  | inl (no_accept, same) ↦ (
    s,
    stays,
    record {
      pending = p.pending ∙ ap (λ (l : List ReadBufferEntry). s.handed ++ l) (sym same);
      counted = k.same_read ∙ p.counted;
    },
  )
  | inr (taken_in, (e, q, q', below, longer)) ↦ (
    record s { accepted = s.accepted ++ e ∷ [] },
    accepts e,
    record {
      pending =
          ap (λ (l : List ReadBufferEntry). l ++ e ∷ []) p.pending
          ∙ append_assoc s.handed c.read_buffer (e ∷ [])
          ∙ ap (λ (l : List ReadBufferEntry). s.handed ++ l) (sym longer);
      counted = k.same_read ∙ p.counted;
    },
  )
]

Kind-Moves :
    {c d : Channel} (s : History)
    → IsWellFormed c
    → Represents (view c) s
    → Kind c d
    → (t : History) × Moves s t × Represents (view d) t
Kind-Moves s w p (aside same) = (s, stays, subst (λ (v : ReadView). Represents v s) (sym same) p)
Kind-Moves {c} s w p (reading r b h same) =
    let (t, a, q) = Delivers-Answers c r s p (subst (Outcomes c) h (peek_packet-Outcomes c w b)) in
    (t, a.moves, subst (λ (v : ReadView). Represents v t) (sym same) q)
Kind-Moves {c} {d} s w p (receiving fuel now pkt o h) =
    Grows-Moves c d pkt o s p (subst (Received c pkt) h (received_packet-Received fuel now c pkt w))

-- A call of `ReadPacket` that does not wait, on a well-formed channel that holds what the machine
-- has pending, is a step of the machine: stopped, it answers no packet and the machine stays; else
-- the machine hands out its next packet, and the call answers that packet with cleaned headers, or
-- EOF.
pub read_packet_attempt-Answers :
    (c : Channel) (r : Read) (s : History)
    → IsWellFormed c
    → Represents (view c) s
    → read_packet_attempt c ≡ done r
    → (t : History) × Answers s t r × Represents (view r.chan) t
read_packet_attempt-Answers c r s w p h =
    Delivers-Answers c r s p (read_packet_attempt-Delivers c r w h)

-- Every interleaving of a channel's calls, packets and timers runs the machine: from a well-formed
-- channel that holds what the machine has pending, each channel reached again holds what the machine
-- has pending after some run of its own, in which packets are handed out in the order in which they
-- were accepted, each once and under the number of its turn.
pub Reach-Runs :
    {c d : Channel} (s : History)
    → IsWellFormed c
    → Represents (view c) s
    → Reach c d
    → (t : History) × Runs s t × Represents (view d) t
Reach-Runs {c} {d} s w p r = let (w', q) = go r in q
  where
    go :
        {b : Channel}
        → Reach c b
        → IsWellFormed b × ((t : History) × Runs s t × Represents (view b) t)
    go here = (w, (s, halt, p))
    go (next r k) =
        let (w', (t, runs, q)) = go r in
        let (u, m, q') = Kind-Moves t w' q (Step-Kind k) in
        (Step-IsWellFormed k w', (u, turn runs m, q'))
