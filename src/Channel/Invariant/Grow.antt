-- ===== src/Channel/Invariant/Grow.antt =====
-- e3x/channel.go: a received packet goes to the end of the read buffer, or nowhere.
use gogotelehash.Channel.Ascends.{Below, Ascends-concat}
use gogotelehash.Channel.Buffer.Sort.{sort_entries-id}
use gogotelehash.Channel.Invariant.Defs.{ReadView, view, IsWellFormed}
use gogotelehash.Channel.Invariant.Frame.{Keeps, Keeps-IsWellFormed}
use gogotelehash.Channel.Invariant.Receive.{
  receive_ack-Keeps, see_seq-IsWellFormed, see_seq-seen, note_end-Keeps, IsNext, IsNext-of_guards,
}
use gogotelehash.Channel.Receive.{
  index_of, sort_entries, receive_ack, Outcome, accepted, see_seq, raise_buffered, append_entry,
  new_entry, buffer_packet, receive_seq, received_packet, is_some, receive_acked,
}
use gogotelehash.Channel.Types.{Channel, ReadBufferEntry, read_buffer_size}
use gogotelehash.Lob.Packet.{Packet}
use gogotelehash.Prelude.{
  ℕ, ◌+◌, ◌≡◌, refl, ap, ◌∙◌, subst, ◌≢◌, ◌⊎◌, inl, inr, Bool, true, false, not, Option, none, some,
  List, [], ◌∷◌, ◌++◌, arith, leb, Bool-cases, length, if◌then◌else◌, ◌^◌, ◌<◌, if_intro,
}
use gogotelehash.Channel.Receive.Ack.{receive_ack_returns}

-- What `d` has in its buffer, and how far it was read, against `c`: an accepted packet was put
-- behind the others, and no other was.
pub record Grows (c d : Channel) (pkt : Packet) (o : Outcome) : Type 0 where
  pub same_read : d.i_seq ≡ c.i_seq
  pub buffer :
      ((o ≢ accepted) × (d.read_buffer ≡ c.read_buffer))
      ⊎ ((o ≡ accepted)
          × ((e : ReadBufferEntry) × (e.pkt ≡ pkt)
              × (e.end ≡ pkt.header.end)
              × (Below e.seq c.read_buffer)
              × (d.read_buffer ≡ c.read_buffer ++ e ∷ [])))

raise_buffered-read :
    (c : Channel) (seq : ℕ)
    → ((raise_buffered c seq).i_seq ≡ c.i_seq)
      × ((raise_buffered c seq).read_buffer ≡ c.read_buffer)
unfolding raise_buffered
raise_buffered-read c seq = ground arith

see_seq-read :
    (c : Channel) (seq : ℕ)
    → ((see_seq c seq).i_seq ≡ c.i_seq) × ((see_seq c seq).read_buffer ≡ c.read_buffer)
unfolding see_seq
see_seq-read c seq = ground arith

buffer_packet-read :
    (c : Channel) (pkt : Packet) (seq : ℕ)
    → IsWellFormed c
    → IsNext (view c) seq
    → ((buffer_packet c pkt seq).i_seq ≡ c.i_seq)
      × ((buffer_packet c pkt seq).read_buffer ≡ c.read_buffer ++ new_entry pkt seq ∷ [])
unfolding buffer_packet append_entry
buffer_packet-read c pkt seq w n =
    let k = note_end-Keeps (raise_buffered c seq) pkt.header in
    let r = raise_buffered-read c seq in
    let up =
      Ascends-concat c.i_seq c.read_buffer (new_entry pkt seq) n.unread w.read_side.ordered
        n.behind in
    let buf = ap (λ (v : ReadView). v.read_buffer) k.same_view ∙ r.1 in
    (
      ap (λ (v : ReadView). v.i_seq) k.same_view ∙ r.0,
      ap (λ (s : List ReadBufferEntry). sort_entries (s ++ new_entry pkt seq ∷ [])) buf
          ∙ sort_entries-id c.i_seq _ up,
    )

pub receive_seq-Grows :
    (c : Channel) (pkt : Packet) (has_seq : Bool) (seq : ℕ)
    → IsWellFormed c
    → Grows c (receive_seq c pkt has_seq seq).0 pkt (receive_seq c pkt has_seq seq).1
unfolding receive_seq
receive_seq-Grows c pkt false seq w = record { same_read = refl; buffer = inl (λ h. cc, refl) }
receive_seq-Grows c pkt true seq w =
    let c1 = see_seq c seq in
    let w1 = see_seq-IsWellFormed c seq w in
    let r = see_seq-read c seq in
    elim (Bool-cases (leb seq c1.i_seq)) [
      | inl old ↦ rw old (record { same_read = r.0; buffer = inl (λ h. cc, r.1) })
      | inr new ↦ rw new (elim (Bool-cases (leb read_buffer_size (length c1.read_buffer))) [
        | inl full ↦ rw full (record { same_read = r.0; buffer = inl (λ h. cc, r.1) })
        | inr room ↦ rw room (elim (Bool-cases (is_some (index_of c1.read_buffer seq))) [
          | inl twice ↦ rw twice (record { same_read = r.0; buffer = inl (λ h. cc, r.1) })
          | inr fresh ↦
              let n = IsNext-of_guards c1 seq w1 (see_seq-seen c seq) new room fresh in
              let b = buffer_packet-read c1 pkt seq w1 n in
              rw fresh (record {
                same_read = b.0 ∙ r.0;
                buffer = inr (
                  refl,
                  (
                    new_entry pkt seq,
                    refl,
                    refl,
                    subst (Below seq) r.1 n.behind,
                    b.1 ∙ ap (λ (s : List ReadBufferEntry). s ++ new_entry pkt seq ∷ []) r.1,
                  ),
                );
              })
        ])
      ])
    ]

Grows-of_Keeps :
    (c d e : Channel) (pkt : Packet) (o : Outcome) → Keeps c d → Grows d e pkt o → Grows c e pkt o
Grows-of_Keeps c d e pkt o k g = record {
  same_read = g.same_read ∙ ap (λ (v : ReadView). v.i_seq) k.same_view;
  buffer =
      subst
        (λ (s : List ReadBufferEntry).
          ((o ≢ accepted) × (e.read_buffer ≡ s))
          ⊎ ((o ≡ accepted)
              × ((x : ReadBufferEntry) × (x.pkt ≡ pkt)
                  × (x.end ≡ pkt.header.end)
                  × (Below x.seq s)
                  × (e.read_buffer ≡ s ++ x ∷ []))))
        (ap (λ (v : ReadView). v.read_buffer) k.same_view) g.buffer;
}

abbrev pub Received : Channel → Packet → Option (Channel × Outcome) → Type 0
Received c pkt none = Unit
Received c pkt (some r) = Grows c r.0 pkt r.1

if-Received :
    (c : Channel) (pkt : Packet) (b : Bool) (s t : Option (Channel × Outcome))
    → Received c pkt s
    → Received c pkt t
    → Received c pkt (if b then s else t)
if-Received c pkt true s t h k = h
if-Received c pkt false s t h k = k

receive_acked-Received :
    (c : Channel) (pkt : Packet) (o : Option Channel)
    → IsWellFormed c
    → ((d : Channel) → o ≡ some d → Keeps c d)
    → Received c pkt (receive_acked o pkt)
receive_acked-Received c pkt none w k = tt
receive_acked-Received c pkt (some d) w k =
    Grows-of_Keeps c d _ pkt _ (k d refl)
      (receive_seq-Grows d pkt pkt.header.has_seq pkt.header.seq (Keeps-IsWellFormed w (k d refl)))

pub received_packet-Received :
    (fuel now : ℕ) (c : Channel) (pkt : Packet)
    → IsWellFormed c
    → Received c pkt (received_packet fuel now c pkt)
unfolding received_packet
received_packet-Received fuel now c pkt w =
    if-Received c pkt c.broken _ _ (record { same_read = refl; buffer = inl (λ h. cc, refl) })
      (if-Received c pkt (not c.reliable) _ _ (receive_seq-Grows c pkt true _ w) (
        if-Received c pkt pkt.header.has_ack _ _
          (receive_acked-Received c pkt (receive_ack fuel now c pkt.header) w
            (λ d e. receive_ack-Keeps fuel now c pkt.header e))
          (receive_seq-Grows c pkt pkt.header.has_seq pkt.header.seq w)))

-- A call whose acknowledgement loop gets its rounds returns.
pub received_packet_returns :
    (fuel now : ℕ) (c : Channel) (pkt : Packet)
    → c.o_acked_seq + 1 < 2 ^ 32
    → pkt.header.ack + 1 < 2 ^ 32
    → pkt.header.ack + 1 < fuel
    → (r : Channel × Outcome) × (received_packet fuel now c pkt ≡ some r)
unfolding received_packet
received_packet_returns fuel now c pkt b1 b2 f =
    let Q = λ (o : Option (Channel × Outcome)). (r : Channel × Outcome) × (o ≡ some r) in
    if_intro Q c.broken (λ _. (_, refl))
      (λ _.
        if_intro Q (not c.reliable) (λ _. (_, refl))
          (λ _.
            if_intro Q pkt.header.has_ack
              (λ _.
                (let (d, e) = receive_ack_returns fuel now c pkt.header b1 b2 f in
                  (_, ap (λ (o : Option Channel). receive_acked o pkt) e)))
              (λ _. (_, refl))))

-- On a well-formed channel, while the numbers acknowledged before and by the packet are below 2^32
-- - 1, and the fuel is above the latter by two, the call that receives a packet returns and leaves
-- the last number read alone: either it does not accept the packet, and leaves the read buffer as
-- it was, or it accepts it, and puts it behind all packets that are buffered, under a number above
-- theirs.
pub received_packet-Grows :
    (fuel now : ℕ) (c : Channel) (pkt : Packet)
    → IsWellFormed c
    → c.o_acked_seq + 1 < 2 ^ 32
    → pkt.header.ack + 1 < 2 ^ 32
    → pkt.header.ack + 1 < fuel
    → (d : Channel) × (o : Outcome) × (received_packet fuel now c pkt ≡ some (d, o))
      × Grows c d pkt o
received_packet-Grows fuel now c pkt w b1 b2 f =
    let ((d, o), e) = received_packet_returns fuel now c pkt b1 b2 f in
    (d, o, e, subst (Received c pkt) e (received_packet-Received fuel now c pkt w))
