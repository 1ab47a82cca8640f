-- ===== src/Channel/Sent.antt =====
-- e3x/channel.go: the packet that a write hands to the exchange, header by header.
use gogotelehash.Channel.Miss.{build_miss_list, collect_miss, scan_buffer, append_gap}
use gogotelehash.Channel.Send.{apply_ack_headers, write_packet_headers, inline_ack, with_ack_miss}
use gogotelehash.Channel.Types.{Channel, initial_seq, blank_seq, u32}
use gogotelehash.Lob.Packet.{Bytes, Packet, Header, is_empty}
use gogotelehash.Prelude.{
  ℕ, ◌+◌, ◌≡◌, refl, true, false, arith, Bool, List, ◌%◌, not, ◌&&◌, ◌||◌, ◌==◌, if_intro,
  if◌then◌else◌, leb,
}

-- The type: in the first packet of a client that of the channel, else the caller's.
abbrev pub typed : Channel → ℕ → Header → Bytes × Bool
typed c n g = if not c.serverside && n == initial_seq then (c.typ, true) else (g.type, g.has_type)

-- The number: on a reliable channel that of the write, else the caller's.
abbrev pub numbered : Channel → ℕ → Header → ℕ × Bool
numbered c n g = if c.reliable then (n, true) else (g.seq, g.has_seq)

-- A reliable channel that has received something confirms it in every thirtieth packet and with `end`.
abbrev pub confirms : Channel → ℕ → Header → Bool
confirms c n g = c.reliable && ((n % 30 == 0 || g.end) && leb initial_seq c.i_seq)

-- The acknowledgement: where the write confirms, the channel's, else the caller's.
abbrev pub acked : Channel → ℕ → Header → ℕ × Bool
acked c n g = if confirms c n g then (c.i_seq, true) else (g.ack, g.has_ack)

-- The miss list: where the write confirms and the channel misses something, the channel's, else the
-- caller's.
abbrev pub missed : Channel → ℕ → Header → List ℕ × Bool
missed c n g =
    if confirms c n g && not (is_empty (build_miss_list c))
    then (build_miss_list c, true)
    else (g.miss, g.has_miss)

-- What of a packet `write` leaves as the caller gave it, and what the channel sets before the
-- acknowledgement.
pub record IsAddressed (c : Channel) (n : ℕ) (pkt sent : Packet) : Type 0 where
  pub body : sent.body ≡ pkt.body
  pub id : (sent.header.c ≡ c.id) × (sent.header.has_c ≡ true)
  pub seq : (sent.header.seq, sent.header.has_seq) ≡ numbered c n pkt.header
  pub type : (sent.header.type, sent.header.has_type) ≡ typed c n pkt.header
  pub end : (sent.header.end ≡ pkt.header.end) × (sent.header.has_end ≡ pkt.header.has_end)
  pub bytes : sent.header.bytes ≡ pkt.header.bytes
  pub extra : sent.header.extra ≡ pkt.header.extra

-- A packet as `write` hands it to the exchange: the caller's, with the channel's headers.
pub record IsSent (c : Channel) (n : ℕ) (pkt sent : Packet) : Type 0 where
  pub addressed : IsAddressed c n pkt sent
  pub ack : (sent.header.ack, sent.header.has_ack) ≡ acked c n pkt.header
  pub miss : (sent.header.miss, sent.header.has_miss) ≡ missed c n pkt.header

-- A packet without the acknowledgement of the channel, which is still in the state of `c0` to receive.
pub record IsPlain (c0 c : Channel) (n : ℕ) (pkt sent : Packet) : Type 0 where
  pub addressed : IsAddressed c0 n pkt sent
  pub same_seq : c.o_seq ≡ n
  pub same_kind : c.reliable ≡ c0.reliable
  pub same_received : c.i_seq ≡ c0.i_seq
  pub same_miss : build_miss_list c ≡ build_miss_list c0
  pub same_ack : (sent.header.ack ≡ pkt.header.ack) × (sent.header.has_ack ≡ pkt.header.has_ack)
  pub same_missed :
      (sent.header.miss ≡ pkt.header.miss) × (sent.header.has_miss ≡ pkt.header.has_miss)

build_miss_list-same :
    (c d : Channel)
    → c.read_buffer ≡ d.read_buffer
    → c.i_seq ≡ d.i_seq
    → c.i_seen_seq ≡ d.i_seen_seq
    → build_miss_list c ≡ build_miss_list d
unfolding build_miss_list collect_miss scan_buffer append_gap
build_miss_list-same c d b s e = cc

pub write_packet_headers-IsPlain :
    (c : Channel) (pkt : Packet)
    → IsPlain c
        (write_packet_headers c pkt).0
        (u32 (c.o_seq + 1))
        pkt
        (write_packet_headers c pkt).1
unfolding write_packet_headers
write_packet_headers-IsPlain c pkt = record {
  addressed = record {
    body = refl;
    id = ground arith;
    seq = ground arith;
    type = ground arith;
    end = ground arith;
    bytes = ground arith;
    extra = ground arith;
  };
  same_seq = ground arith;
  same_kind = ground arith;
  same_received = ground arith;
  same_miss =
      build_miss_list-same (write_packet_headers c pkt).0 c (ground arith) (ground arith)
        (ground arith);
  same_ack = ground arith;
  same_missed = ground arith;
}

-- A packet that is sent without the channel's acknowledgement, where none is due.
pub IsPlain-IsSent :
    (c0 c : Channel) (n : ℕ) (pkt sent : Packet)
    → IsPlain c0 c n pkt sent
    → confirms c0 n pkt.header ≡ false
    → IsSent c0 n pkt sent
IsPlain-IsSent c0 c n pkt sent p quiet = record {
  addressed = p.addressed;
  ack = ground (arith, quiet, p.same_ack);
  miss = ground (arith, quiet, p.same_missed);
}

-- A packet that is sent with the channel's acknowledgement.
confirmed :
    (c0 c : Channel) (n : ℕ) (pkt sent : Packet)
    → IsPlain c0 c n pkt sent
    → confirms c0 n pkt.header ≡ true
    → IsSent c0 n pkt (with_ack_miss c (build_miss_list c) sent)
confirmed c0 c n pkt sent p due = record {
  addressed = record {
    body = p.addressed.body;
    id = ground (arith, p.addressed.id);
    seq = ground (arith, p.addressed.seq);
    type = ground (arith, p.addressed.type);
    end = ground (arith, p.addressed.end);
    bytes = ground (arith, p.addressed.bytes);
    extra = ground (arith, p.addressed.extra);
  };
  ack = ground (arith, due, p.same_received);
  miss = ground (arith, due, p.same_miss, p.same_missed);
}

pub inline_ack-IsSent :
    (c0 c : Channel) (n : ℕ) (pkt sent : Packet)
    → IsPlain c0 c n pkt sent
    → IsSent c0 n pkt (inline_ack c sent).1
unfolding inline_ack apply_ack_headers
inline_ack-IsSent c0 c n pkt sent p =
    let P = λ (r : Channel × Packet). IsSent c0 n pkt r.1 in
    let unchanged : confirms c0 n pkt.header ≡ false → IsSent c0 n pkt sent =
      IsPlain-IsSent c0 c n pkt sent p in
    let seq = p.same_seq in
    let kind = p.same_kind in
    let received = p.same_received in
    let ended = p.addressed.end.0 in
    if_intro P (c.o_seq % 30 == 0 || sent.header.end)
      (λ due.
        if_intro P (not c.reliable) (λ loose. unchanged (ground arith))
          (λ reliable.
            if_intro P (c.i_seq == blank_seq) (λ nothing. unchanged (ground arith))
              (λ something. confirmed c0 c n pkt sent p (ground arith))))
      (λ early. unchanged (ground arith))
