-- ===== src/Channel/Invariant/Receive.antt =====
-- e3x/channel.go: `receivedPacket` keeps the invariant.
use gogotelehash.Channel.Ascends.{Below, AtMost-mono, Ascends-concat}
use gogotelehash.Channel.Buffer.Search.{index_of-none}
use gogotelehash.Channel.Buffer.Sort.{AtMost-concat, sort_entries-id}
use gogotelehash.Channel.Invariant.Defs.{ReadView, view, IsWellFormed}
use gogotelehash.Channel.Invariant.Frame.{
  Keeps, Keeps-refl, Keeps-trans, Keeps-IsWellFormed, deliver_ack-Keeps, signal_if-Keeps,
  process_missing_packets-Keeps,
}
use gogotelehash.Channel.Read.{signal_if}
use gogotelehash.Channel.Receive.{
  index_of, AckState, drop_acked, free_entry, ack_loop, append_entry, new_entry, note_end,
  raise_buffered, raise_acked, finish_ack, receive_ack, Outcome, see_seq, buffer_packet,
  receive_seq, received_packet, is_some,
}
use gogotelehash.Channel.Types.{
  Channel, ReadBufferEntry, WriteBufferEntry, u32, write, close, read_buffer_size,
}
use gogotelehash.Lob.Packet.{Packet, Header, is_empty}
use gogotelehash.Prelude.Map.{length-erase-le, lookup}
use gogotelehash.Prelude.{
  ℕ, zero, suc, ◌+◌, ◌≤◌, ◌<◌, ◌≡◌, refl, ap, inl, inr, Bool, true, ◌&&◌, Option, none, some, [],
  ◌∷◌, ◌++◌, arith, ltb, leb, Bool-cases, Option-cases, length, length-append, sym, subst, false,
  ◌||◌, if◌then◌else◌,
}

is_some-none {ℓ} : {A : Type ℓ} (o : Option A) → is_some o ≡ false → o ≡ none
is_some-none none h = refl
is_some-none (some a) h = cc

free_entry-Keeps : (o : Option WriteBufferEntry) (c : Channel) → Keeps c (free_entry o c)
free_entry-Keeps none c = Keeps-refl c
free_entry-Keeps (some e) c = ground arith

drop_acked-Keeps : (i : ℕ) (s : AckState) → Keeps s.chan (drop_acked i s).chan
unfolding drop_acked
drop_acked-Keeps i s =
    Keeps-trans (free_entry-Keeps (lookup i s.chan.write_buffer) s.chan)
      (ground (arith, length-erase-le i s.chan.write_buffer))

ack_loop-Keeps :
    (fuel i ack : ℕ) (s t : AckState) → ack_loop fuel i ack s ≡ some t → Keeps s.chan t.chan
unfolding ack_loop
ack_loop-Keeps zero i ack s t h = cc
ack_loop-Keeps (suc fuel) i ack s t h = elim (Bool-cases (leb i ack)) [
  | inl more ↦
      Keeps-trans (drop_acked-Keeps i s)
        (ack_loop-Keeps fuel (u32 (i + 1)) ack (drop_acked i s) t (ground arith))
  | inr last ↦ ground (arith, Keeps-refl s.chan)
]

raise_acked-Keeps : (c : Channel) (ack : ℕ) → Keeps c (raise_acked c ack).chan
unfolding raise_acked
raise_acked-Keeps c ack = ground arith

finish_ack-Keeps : (now : ℕ) (hdr : Header) (s : AckState) → Keeps s.chan (finish_ack now hdr s)
unfolding finish_ack
finish_ack-Keeps now hdr s =
    let c = s.chan in
    let c1 : Channel = if is_empty c.write_buffer then record c { needs_resend = false } else c in
    let c2 = signal_if s.changed write c1 in
    let b = s.changed && (c2.delivered_end || c2.received_end) in
    let c3 = signal_if b close c2 in
    let k1 : Keeps c c1 = ground arith in
    let k3 =
      Keeps-trans k1
        (Keeps-trans (signal_if-Keeps s.changed write c1) (signal_if-Keeps b close c2)) in
    elim (Bool-cases hdr.has_miss) [
      | inl m ↦ rw m (Keeps-trans k3 (process_missing_packets-Keeps c3 now hdr.ack hdr.miss))
      | inr m ↦ rw m k3
    ]

pub receive_ack-Keeps :
    (fuel now : ℕ) (c : Channel) (hdr : Header) {d : Channel}
    → receive_ack fuel now c hdr ≡ some d
    → Keeps c d
unfolding receive_ack
receive_ack-Keeps fuel now c hdr {d} h =
    let start = raise_acked c hdr.ack in
    elim (Option-cases (ack_loop fuel (u32 (c.o_acked_seq + 1)) hdr.ack start)) [
      | inl stuck ↦ ground arith
      | inr (s, e) ↦
          let k = Keeps-trans (raise_acked-Keeps c hdr.ack) (
            Keeps-trans (ack_loop-Keeps fuel (u32 (c.o_acked_seq + 1)) hdr.ack start s e)
              (finish_ack-Keeps now hdr s)) in
          ground (arith, k)
    ]

pub see_seq-IsWellFormed : (c : Channel) (seq : ℕ) → IsWellFormed c → IsWellFormed (see_seq c seq)
unfolding see_seq
see_seq-IsWellFormed c seq w = elim (Bool-cases (c.reliable && ltb c.i_seen_seq seq)) [
  | inr old ↦ rw old w
  | inl new ↦ rw new (record {
    read_side = record {
      ordered = w.read_side.ordered;
      bounded = w.read_side.bounded;
      buffered = w.read_side.buffered;
      read_buffered = w.read_side.read_buffered;
      seen = λ r. AtMost-mono c.read_buffer (ground arith) (w.read_side.seen r);
      read_seen = λ r. ground (arith, w.read_side.read_seen r);
    };
    acked = w.acked;
    window = w.window;
  })
]

-- A packet behind all those in the buffer goes to its end.
append_entry-IsWellFormed :
    (c : Channel) (e : ReadBufferEntry)
    → IsWellFormed c
    → c.i_seq < e.seq
    → Below e.seq c.read_buffer
    → length c.read_buffer < read_buffer_size
    → e.seq ≤ c.i_buffered_seq
    → (c.reliable ≡ true → e.seq ≤ c.i_seen_seq)
    → IsWellFormed (append_entry c e)
unfolding append_entry
append_entry-IsWellFormed c e w new behind room buffered seen =
    let up = Ascends-concat c.i_seq c.read_buffer e new w.read_side.ordered behind in
    rw (sort_entries-id c.i_seq (c.read_buffer ++ e ∷ []) up) (record {
      read_side = record {
        ordered = up;
        bounded = omega (arith, length-append c.read_buffer (e ∷ []));
        buffered = AtMost-concat _ c.read_buffer e buffered w.read_side.buffered;
        read_buffered = w.read_side.read_buffered;
        seen = λ r. AtMost-concat _ c.read_buffer e (seen r) (w.read_side.seen r);
        read_seen = w.read_side.read_seen;
      };
      acked = w.acked;
      window = w.window;
    })

raise_buffered-IsWellFormed :
    (c : Channel) (seq : ℕ) → IsWellFormed c → IsWellFormed (raise_buffered c seq)
unfolding raise_buffered
raise_buffered-IsWellFormed c seq w = elim (Bool-cases (ltb c.i_buffered_seq seq)) [
  | inr old ↦ rw old w
  | inl new ↦ rw new (record {
    read_side = record {
      ordered = w.read_side.ordered;
      bounded = w.read_side.bounded;
      buffered = AtMost-mono c.read_buffer (ground arith) w.read_side.buffered;
      read_buffered = ground (arith, w.read_side.read_buffered);
      seen = w.read_side.seen;
      read_seen = w.read_side.read_seen;
    };
    acked = w.acked;
    window = w.window;
  })
]

-- What `buffer_packet` needs of the channel and the sequence number.
pub record IsNext (v : ReadView) (seq : ℕ) : Type 0 where
  pub unread : v.i_seq < seq
  pub behind : Below seq v.read_buffer
  pub room : length v.read_buffer < read_buffer_size
  pub seen : v.reliable ≡ true → seq ≤ v.i_seen_seq

pub raise_buffered-IsNext :
    (c : Channel) (seq : ℕ)
    → IsNext (view c) seq
    → IsNext (view (raise_buffered c seq)) seq × (seq ≤ (raise_buffered c seq).i_buffered_seq)
unfolding raise_buffered
raise_buffered-IsNext c seq n = elim (Bool-cases (ltb c.i_buffered_seq seq)) [
  | inr old ↦ rw old (n, ground arith)
  | inl new ↦
      rw new
        (record { unread = n.unread; behind = n.behind; room = n.room; seen = n.seen }, omega arith)
]

pub note_end-Keeps : (c : Channel) (hdr : Header) → Keeps c (note_end c hdr)
unfolding note_end
note_end-Keeps c hdr =
    ground (arith, Keeps-refl c, deliver_ack-Keeps (record c { received_end = true }))

pub buffer_packet-IsWellFormed :
    (c : Channel) (pkt : Packet) (seq : ℕ)
    → IsWellFormed c
    → IsNext (view c) seq
    → IsWellFormed (buffer_packet c pkt seq)
unfolding buffer_packet
buffer_packet-IsWellFormed c pkt seq w n =
    let c1 = raise_buffered c seq in
    let (n1, high) = raise_buffered-IsNext c seq n in
    let c2 = note_end c1 pkt.header in
    let k = note_end-Keeps c1 pkt.header in
    let n2 = subst (λ v. IsNext v seq) (sym k.same_view) n1 in
    append_entry-IsWellFormed c2 (new_entry pkt seq)
      (Keeps-IsWellFormed (raise_buffered-IsWellFormed c seq w) k) n2.unread n2.behind n2.room
      (omega (arith, high, ap (λ (v : ReadView). v.i_buffered_seq) k.same_view)) n2.seen

pub see_seq-seen :
    (c : Channel) (seq : ℕ) → (see_seq c seq).reliable ≡ true → seq ≤ (see_seq c seq).i_seen_seq
unfolding see_seq
see_seq-seen c seq r = ground arith

-- The guards of `receivedPacket` leave just such a sequence number.
pub IsNext-of_guards :
    (c : Channel) (seq : ℕ)
    → IsWellFormed c
    → (c.reliable ≡ true → seq ≤ c.i_seen_seq)
    → leb seq c.i_seq ≡ false
    → leb read_buffer_size (length c.read_buffer) ≡ false
    → is_some (index_of c.read_buffer seq) ≡ false
    → IsNext (view c) seq
IsNext-of_guards c seq w seen new room fresh = record {
  unread = ground arith;
  behind =
      index_of-none c.i_seq c.read_buffer seq w.read_side.ordered
        (is_some-none (index_of c.read_buffer seq) fresh);
  room = ground arith;
  seen = seen;
}

receive_seq-IsWellFormed :
    (c : Channel) (pkt : Packet) (has_seq : Bool) (seq : ℕ)
    → IsWellFormed c
    → IsWellFormed (receive_seq c pkt has_seq seq).0
unfolding receive_seq
receive_seq-IsWellFormed c pkt false seq w = w
receive_seq-IsWellFormed c pkt true seq w =
    let c1 = see_seq c seq in
    let w1 = see_seq-IsWellFormed c seq w in
    elim (Bool-cases (leb seq c1.i_seq)) [
      | inl old ↦ rw old w1
      | inr new ↦ rw new (elim (Bool-cases (leb read_buffer_size (length c1.read_buffer))) [
        | inl full ↦ rw full w1
        | inr room ↦ rw room (elim (Bool-cases (is_some (index_of c1.read_buffer seq))) [
          | inl twice ↦ rw twice w1
          | inr fresh ↦ rw fresh (
              buffer_packet-IsWellFormed c1 pkt seq w1
                (IsNext-of_guards c1 seq w1 (see_seq-seen c seq) new room fresh))
        ])
      ])
    ]

-- What a call of `receivedPacket` leaves, where it returns.
abbrev pub Received : Option (Channel × Outcome) → Type 0
Received none = Unit
Received (some r) = IsWellFormed r.0

-- Whatever `receivedPacket` does with a packet, the channel stays well-formed.
pub received_packet-Received :
    (fuel now : ℕ) (c : Channel) (pkt : Packet)
    → IsWellFormed c
    → Received (received_packet fuel now c pkt)
unfolding received_packet
received_packet-Received fuel now c pkt w =
    let plain = receive_seq-IsWellFormed c pkt pkt.header.has_seq pkt.header.seq w in
    let loose = receive_seq-IsWellFormed c pkt true (u32 (c.i_buffered_seq + 1)) w in
    elim (Option-cases (receive_ack fuel now c pkt.header)) [
      | inl stuck ↦ ground (arith, w, plain, loose)
      | inr (d, e) ↦
          let after =
            receive_seq-IsWellFormed d pkt pkt.header.has_seq pkt.header.seq
              (Keeps-IsWellFormed w (receive_ack-Keeps fuel now c pkt.header e)) in
          ground (arith, w, plain, loose, after)
    ]
