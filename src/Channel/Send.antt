-- ===== src/Channel/Send.antt =====
-- e3x/channel.go: calls of the exchange: acknowledgements, resends, and `write`.
use gogotelehash.Prelude.{
  ℕ, ◌+◌, ◌*◌, ◌%◌, Bool, true, false, not, ◌&&◌, ◌||◌, List, [], ◌∷◌, Option, none, some,
  if◌then◌else◌, ◌==◌, leb, ltb,
}
use gogotelehash.Prelude.Map.{lookup, insert}
use gogotelehash.Lob.Packet.{Packet, Header, empty_packet, is_empty}
use gogotelehash.Channel.Types.{
  Channel, WriteBufferEntry, Error, timeout, eof, deliver, free, nil, running, emit, stop,
  broken_error, blank_seq, initial_seq, early_ad_hoc_ack, second, u32, sub32,
}
use gogotelehash.Channel.Miss.{build_miss_list}

-- `c.x.deliverPacket(pkt, dst)`: the call is logged, and answered.
abbrev pub deliver_to : Channel → Packet → Option ℕ → Channel × Option Error
deliver_to c pkt dst = (emit (deliver pkt dst) c, c.x.deliver_packet c.log pkt dst)

abbrev pub with_ack : Channel → Header → Header
with_ack c h = if leb initial_seq c.i_seq then record h { ack = c.i_seq; has_ack = true } else h

abbrev pub with_miss : List ℕ → Header → Header
with_miss l h = if is_empty l then h else record h { miss = l; has_miss = true }

-- The acknowledgement headers that `applyAckHeaders`, `processMissingPackets` and
-- `resendLastPacket` write.
abbrev pub with_ack_miss : Channel → List ℕ → Packet → Packet
with_ack_miss c l pkt = record pkt { header = with_miss l (with_ack c pkt.header) }

unfoldable pub apply_ack_headers : Channel → Packet → Channel × Packet
apply_ack_headers c pkt =
    if not c.reliable
    then (c, pkt)
    else if c.i_seq == blank_seq
    then (c, pkt)
    else (record c { i_acked_seq = c.i_seq }, with_ack_miss c (build_miss_list c) pkt)

-- `hdr.C, hdr.HasC = c.id, true`
abbrev pub with_id : Channel → Packet → Packet
with_id c pkt = let h = pkt.header in record pkt { header = record h { c = c.id; has_c = true } }

unfoldable pub deliver_ack : Channel → Channel
unfolding apply_ack_headers
deliver_ack c =
    if not c.reliable
    then c
    else let (c', pkt) = apply_ack_headers c (with_id c empty_packet) in (deliver_to c' pkt none).0

unfoldable pub maybe_deliver_ad_hoc_ack : Channel → Channel
maybe_deliver_ad_hoc_ack c =
    if not c.reliable
    then c
    else if ltb c.i_seq initial_seq
    then c
    else if leb early_ad_hoc_ack (sub32 c.i_seq c.i_acked_seq)
    then deliver_ack c
    else c

-- The timer's callback. (`tAcker` is not nil where it runs.)
unfoldable pub auto_deliver_ack : Channel → Channel
auto_deliver_ack c = let c' = deliver_ack c in record c' { t_acker = running (10 * second) }

unfoldable pub set_close_deadline : Channel → Channel
set_close_deadline c = elim c.t_close_deadline [
  | nil ↦
      if c.close_deadline_reached then c else record c { t_close_deadline = running (60 * second) }
  | _ ↦ c
]

unfoldable pub unset_open_deadline : Channel → Channel
unset_open_deadline c = record c { t_open_deadline = stop c.t_open_deadline }

-- The headers that `write` sets, at the sequence number `o_seq`.
abbrev pub write_header : Channel → Header → Header
write_header c h =
    let h1 : Header = record h { c = c.id; has_c = true } in
    let h2 : Header = if c.reliable then record h1 { seq = c.o_seq; has_seq = true } else h1 in
    if not c.serverside && c.o_seq == initial_seq
    then record h2 { type = c.typ; has_type = true }
    else h2

-- `c.writeBuffer[c.oSeq] = …; c.needsResend = false`.
abbrev pub buffer_write : Channel → Packet → Bool → Option ℕ → Channel
buffer_write c pkt end p = record c {
  write_buffer =
      insert c.o_seq (record { pkt = pkt; end = end; last_resend = 0; dst = p }) c.write_buffer;
  needs_resend = false;
}

-- `if c.oSeq%30 == 0 || hdr.End { c.applyAckHeaders(pkt) }`.
unfoldable pub inline_ack : Channel → Packet → Channel × Packet
inline_ack c pkt = if c.o_seq % 30 == 0 || pkt.header.end then apply_ack_headers c pkt else (c, pkt)

-- `if c.reliable { … }`: inline acknowledgement, and the write buffer.
unfoldable pub write_reliable : Channel → Packet → Bool → Option ℕ → Channel × Packet
write_reliable c pkt end p =
    let r = inline_ack c pkt in
    if not c.reliable then (c, pkt) else (buffer_write r.0 r.1 end p, r.1)

-- From `err := c.x.deliverPacket(pkt, p)` on. An unreliable channel gives the packet back.
unfoldable pub write_deliver : Channel → Packet → Option ℕ → Channel × Option Error
unfolding unset_open_deadline
write_deliver c pkt p = elim (c.x.deliver_packet c.log pkt p) [
  | some e ↦ (emit (deliver pkt p) c, some e)
  | none ↦
      let c1 = emit (deliver pkt p) c in
      let c2 = if c.o_seq == initial_seq && c.serverside then unset_open_deadline c1 else c1 in
      (if not c.reliable then emit (free pkt) c2 else c2, none)
]

-- Behind the three checks.
unfoldable pub write_packet_headers : Channel → Packet → Channel × Packet × Bool
unfolding set_close_deadline
write_packet_headers c pkt =
    let c1 = record c { o_seq = u32 (c.o_seq + 1) } in
    let pkt1 = record pkt { header = write_header c1 pkt.header } in
    let end = pkt1.header.has_end && pkt1.header.end in
    let c2 = if end then set_close_deadline (record c1 { delivered_end = true }) else c1 in
    (c2, pkt1, end)

unfoldable pub write : Channel → Packet → Option ℕ → Channel × Option Error
unfolding write_packet_headers write_reliable write_deliver
write c pkt p =
    if c.broken
    then (c, some (broken_error c))
    else if c.write_deadline_reached
    then (c, some timeout)
    else if c.delivered_end
    then (c, some eof)
    else let (c1, pkt1, end) = write_packet_headers c pkt in
      let (c2, pkt2) = write_reliable c1 pkt1 end p in write_deliver c2 pkt2 p

-- The guard of `processMissingPackets`: an entry that was resent within a second is left alone
-- (`e.lastResend.After(now.Add(-1 * time.Second))`).
abbrev pub resent_lately : ℕ → WriteBufferEntry → Bool
resent_lately now e = ltb now (e.last_resend + second)

-- `e.lastResend = now` on a packet that gets the acknowledgement headers, and its delivery.
unfoldable pub resend : Channel → ℕ → List ℕ → ℕ → WriteBufferEntry → Channel
resend c now omiss seq e =
    let pkt = with_ack_miss c omiss e.pkt in
    let c1 = record c {
      write_buffer = insert seq (record e { pkt = pkt; last_resend = now }) c.write_buffer;
    } in
    (deliver_to c1 pkt e.dst).0

-- One round of the loop: `omiss` is the channel's own miss list, computed once.
unfoldable pub resend_missing : Channel → ℕ → List ℕ → ℕ → Channel
unfolding resend
resend_missing c now omiss seq = elim (lookup seq c.write_buffer) [
  | none ↦ c
  | some e ↦ if resent_lately now e then c else resend c now omiss seq e
]

unfoldable pub process_missing : Channel → ℕ → List ℕ → ℕ → List ℕ → Channel
process_missing c now omiss last [] = c
process_missing c now omiss last (delta ∷ miss) =
    let seq = u32 (last + delta) in
    process_missing (resend_missing c now omiss seq) now omiss seq miss

unfoldable pub process_missing_packets : Channel → ℕ → ℕ → List ℕ → Channel
process_missing_packets c now ack miss = process_missing c now (build_miss_list c) ack miss

-- `resendLastPacket`, up to the unlock: what it then delivers without the lock is the second part.
unfoldable pub resend_last_packet : Channel → ℕ → Channel × Option (Packet × Option ℕ)
resend_last_packet c now =
    let c1 = record c { needs_resend = true; t_resend = running second } in
    if not c.needs_resend then (c1, none) else elim (lookup c.o_seq c.write_buffer) [
      | none ↦ (c1, none)
      | some e ↦
          let pkt = with_ack_miss c (build_miss_list c) e.pkt in
          (
            record c1 {
              write_buffer =
                  insert c.o_seq (record e { pkt = pkt; last_resend = now }) c.write_buffer;
            },
            some (pkt, e.dst),
          )
    ]

-- The delivery behind the unlock of `resendLastPacket`.
unfoldable pub resend_delivery : Channel → Option (Packet × Option ℕ) → Channel
resend_delivery c none = c
resend_delivery c (some (pkt, dst)) = (deliver_to c pkt dst).0
