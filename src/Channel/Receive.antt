-- ===== src/Channel/Receive.antt =====
-- e3x/channel.go: `receivedPacket`, and the read buffer's `IndexOf` and sort.
pub mod Ack
use gogotelehash.Prelude.{
  ℕ, zero, suc, ◌+◌, ◌/◌, Bool, true, false, not, ◌&&◌, ◌||◌, List, [], ◌∷◌, ◌++◌, Option, none,
  some, if◌then◌else◌, ◌==◌, leb, ltb, length, ◌-◌, ◌<◌, ap, drop,
}
use gogotelehash.Prelude.Map.{lookup, erase}
use gogotelehash.Lob.Packet.{Packet, Header, is_empty}
use gogotelehash.Channel.Types.{
  Channel, ReadBufferEntry, WriteBufferEntry, read, write, close, signal, free, emit,
  read_buffer_size, u32,
}
use gogotelehash.Channel.Send.{deliver_ack, process_missing_packets}
use gogotelehash.Channel.Read.{signal_if}

abbrev pub is_some {ℓ} : {A : Type ℓ} → Option A → Bool
is_some none = false
is_some (some a) = true

-- `sort.Search`: the binary search of the standard library, on the rounds left.
unfoldable pub search_from : ℕ → (ℕ → Bool) → ℕ → ℕ → ℕ
search_from zero f i j = i
search_from (suc fuel) f i j =
    let h = (i + j) / 2 in
    let right = search_from fuel f (h + 1) j in
    let left = search_from fuel f i h in if ltb i j then (if f h then left else right) else i

-- Each round shrinks `j - i`, so `n` rounds are enough.
unfoldable pub sort_search : ℕ → (ℕ → Bool) → ℕ
unfolding search_from
sort_search n f = search_from n f 0 n

-- `s[i].seq`; the search stays inside the slice.
abbrev pub seq_at : List ReadBufferEntry → ℕ → ℕ
seq_at [] i = 0
seq_at (e ∷ es) zero = e.seq
seq_at (e ∷ es) (suc i) = seq_at es i

-- `readBufferSlice.IndexOf`; `none` is -1.
unfoldable pub index_of : List ReadBufferEntry → ℕ → Option ℕ
unfolding sort_search
index_of s seq =
    let idx = sort_search (length s) (λ i. leb seq (seq_at s i)) in
    if idx == length s then none else some idx

-- `sort.Sort` by sequence number.
abbrev pub insert_sorted : ReadBufferEntry → List ReadBufferEntry → List ReadBufferEntry
insert_sorted e [] = e ∷ []
insert_sorted e (x ∷ xs) = if ltb e.seq x.seq then e ∷ x ∷ xs else x ∷ insert_sorted e xs

abbrev pub sort_onto : List ReadBufferEntry → List ReadBufferEntry → List ReadBufferEntry
sort_onto acc [] = acc
sort_onto acc (e ∷ es) = sort_onto (insert_sorted e acc) es

unfoldable pub sort_entries : List ReadBufferEntry → List ReadBufferEntry
sort_entries es = sort_onto [] es

-- The variables of the loop `for i := oldAck + 1; i <= ack; i++`.
pub record AckState : Type 0 where
  pub chan : Channel
  pub changed : Bool

-- `if e := c.writeBuffer[i]; e != nil { e.pkt.Free() }; delete(c.writeBuffer, i); changed = true`.
abbrev pub free_entry : Option WriteBufferEntry → Channel → Channel
free_entry none c = c
free_entry (some e) c = emit (free e.pkt) c

unfoldable pub drop_acked : ℕ → AckState → AckState
drop_acked i s =
    let c = free_entry (lookup i s.chan.write_buffer) s.chan in
    record { chan = record c { write_buffer = erase i s.chan.write_buffer }; changed = true }

-- The loop on the rounds left: `none` when they run out.
unfoldable pub ack_loop : ℕ → ℕ → ℕ → AckState → Option AckState
ack_loop zero i ack s = none
ack_loop (suc fuel) i ack s =
    let rest = ack_loop fuel (u32 (i + 1)) ack (drop_acked i s) in
    if leb i ack then rest else some s

-- `if c.oAckedSeq < ack { c.oAckedSeq = ack; changed = true }`.
unfoldable pub raise_acked : Channel → ℕ → AckState
raise_acked c ack =
    if ltb c.o_acked_seq ack
    then record { chan = record c { o_acked_seq = ack }; changed = true }
    else record { chan = c; changed = false }

-- From `if len(c.writeBuffer) == 0` to the handling of `miss`. `now` is the time of the call.
unfoldable pub finish_ack : ℕ → Header → AckState → Channel
finish_ack now hdr s =
    let c = s.chan in
    let c1 = if is_empty c.write_buffer then record c { needs_resend = false } else c in
    let c2 = signal_if s.changed write c1 in
    let c3 = signal_if (s.changed && (c2.delivered_end || c2.received_end)) close c2 in
    if hdr.has_miss then process_missing_packets c3 now hdr.ack hdr.miss else c3

abbrev pub after_ack : ℕ → Header → Option AckState → Option Channel
after_ack now hdr none = none
after_ack now hdr (some s) = some (finish_ack now hdr s)

-- `if hasAck { … }`, with the rounds that the loop may make.
unfoldable pub receive_ack : ℕ → ℕ → Channel → Header → Option Channel
receive_ack fuel now c hdr =
    after_ack now hdr (ack_loop fuel (u32 (c.o_acked_seq + 1)) hdr.ack (raise_acked c hdr.ack))

-- What becomes of a packet; the reasons are those of the traces.
pub data Outcome : Type 0 where
  broken_drop missing_seq duplicate full_buffer accepted : Outcome

-- `if c.reliable && c.iSeenSeq < seq { c.iSeenSeq = seq }`.
unfoldable pub see_seq : Channel → ℕ → Channel
see_seq c seq = if c.reliable && ltb c.i_seen_seq seq then record c { i_seen_seq = seq } else c

-- `if c.iBufferedSeq < seq { c.iBufferedSeq = seq }`.
unfoldable pub raise_buffered : Channel → ℕ → Channel
raise_buffered c seq = if ltb c.i_buffered_seq seq then record c { i_buffered_seq = seq } else c

-- `if end && hasEnd { c.receivedEnd = true; c.deliverAck() }`.
unfoldable pub note_end : Channel → Header → Channel
note_end c hdr =
    if hdr.end && hdr.has_end then deliver_ack (record c { received_end = true }) else c

abbrev pub new_entry : Packet → ℕ → ReadBufferEntry
new_entry pkt seq = record { pkt = pkt; seq = seq; end = pkt.header.end }

-- `c.readBuffer = append(c.readBuffer, e); sort.Sort(c.readBuffer); c.cndRead.Signal()`.
unfoldable pub append_entry : Channel → ReadBufferEntry → Channel
append_entry c e = record c {
  read_buffer = sort_entries (c.read_buffer ++ e ∷ []);
  log = signal read ∷ c.log;
}

-- From there to the end of the critical section.
unfoldable pub buffer_packet : Channel → Packet → ℕ → Channel
unfolding raise_buffered note_end append_entry
buffer_packet c pkt seq =
    append_entry (note_end (raise_buffered c seq) pkt.header) (new_entry pkt seq)

-- The four guards behind the acknowledgement, and the buffering.
unfoldable pub receive_seq : Channel → Packet → Bool → ℕ → Channel × Outcome
receive_seq c pkt has_seq seq =
    if not has_seq
    then (c, missing_seq)
    else let c1 = see_seq c seq in
      if leb seq c1.i_seq
      then (c1, duplicate)
      else if leb read_buffer_size (length c1.read_buffer)
      then (c1, full_buffer)
      else if is_some (index_of c1.read_buffer seq)
      then (c1, duplicate)
      else (buffer_packet c1 pkt seq, accepted)

-- What follows the acknowledgement, if its loop comes to an end.
abbrev pub receive_acked : Option Channel → Packet → Option (Channel × Outcome)
receive_acked none pkt = none
receive_acked (some c) pkt = some (receive_seq c pkt pkt.header.has_seq pkt.header.seq)

-- `receivedPacket`. Its acknowledgement loop may make `fuel` rounds; `none` when it needs more.
unfoldable pub received_packet : ℕ → ℕ → Channel → Packet → Option (Channel × Outcome)
received_packet fuel now c pkt =
    if c.broken
    then some (c, broken_drop)
    else if not c.reliable
    then some (receive_seq c pkt true (u32 (c.i_buffered_seq + 1)))
    else if pkt.header.has_ack
    then receive_acked (receive_ack fuel now c pkt.header) pkt
    else receive_acked (some c) pkt
