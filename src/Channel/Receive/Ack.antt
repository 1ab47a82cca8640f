-- ===== src/Channel/Receive/Ack.antt =====
-- e3x/channel.go: the loop of `receivedPacket` that drops acknowledged packets.
use Prim.Native.Nat.{max}
use gogotelehash.Channel.Receive.{
  AckState, drop_acked, free_entry, ack_loop, raise_acked, finish_ack, after_ack, receive_ack,
  received_packet,
}
use gogotelehash.Channel.Read.{signal_if}
use gogotelehash.Channel.Types.{Channel, Cond, WriteBufferEntry, u32, write, close}
use gogotelehash.Lob.Packet.{Packet, Header, is_empty}
use gogotelehash.Prelude.Map.{lookup, lookup-erase}
use gogotelehash.Prelude.{
  ℕ, zero, suc, ◌+◌, ◌-◌, ◌^◌, ◌<◌, ◌≡◌, refl, ap, ◌∙◌, inl, inr, Bool, true, false, ◌&&◌, Option,
  none, some, arith, leb, ◌==◌, if◌then◌else◌, Bool-cases, ◌||◌,
}

-- `k` lies between two bounds, both included.
abbrev pub between : ℕ → ℕ → ℕ → Bool
between lo hi k = leb lo k && leb k hi

free_entry-buffer :
    (o : Option WriteBufferEntry) (c : Channel)
    → ((free_entry o c).write_buffer ≡ c.write_buffer)
      × ((free_entry o c).o_acked_seq ≡ c.o_acked_seq)
free_entry-buffer none c = (refl, refl)
free_entry-buffer (some e) c = (refl, refl)

drop_acked-lookup :
    (i k : ℕ) (s : AckState)
    → lookup k (drop_acked i s).chan.write_buffer
      ≡ (if i == k then none else lookup k s.chan.write_buffer)
unfolding drop_acked
drop_acked-lookup i k s = lookup-erase i k s.chan.write_buffer

drop_acked-acked : (i : ℕ) (s : AckState) → (drop_acked i s).chan.o_acked_seq ≡ s.chan.o_acked_seq
unfolding drop_acked
drop_acked-acked i s = (free_entry-buffer (lookup i s.chan.write_buffer) s.chan).1

-- What the loop over `i .. ack` leaves.
record Dropped (i ack : ℕ) (s t : AckState) : Type 0 where
  buffer :
      (k : ℕ)
      → lookup k t.chan.write_buffer
        ≡ (if between i ack k then none else lookup k s.chan.write_buffer)
  same_acked : t.chan.o_acked_seq ≡ s.chan.o_acked_seq

ack_loop-Dropped :
    (fuel i ack : ℕ) (s : AckState)
    → ack + 1 < 2 ^ 32
    → 0 < fuel
    → ack + 1 < fuel + i
    → (t : AckState) × (ack_loop fuel i ack s ≡ some t) × Dropped i ack s t
unfolding ack_loop
ack_loop-Dropped zero i ack s b p h = absurd (omega arith)
ack_loop-Dropped (suc fuel) i ack s b p h = elim (Bool-cases (leb i ack)) [
  | inr last ↦ rw last (s, refl, record { buffer = λ k. ground arith; same_acked = refl })
  | inl more ↦
      let up : u32 (i + 1) ≡ i + 1 = ground arith in
      let (t, e, d) =
        ack_loop-Dropped fuel (i + 1) ack (drop_acked i s) b (ground arith) (ground arith) in
      rw (more, up)
        (
          t,
          e,
          record {
            buffer = λ k. ground (arith, d.buffer k, drop_acked-lookup i k s);
            same_acked = d.same_acked ∙ drop_acked-acked i s;
          },
        )
]

-- With the highest number that a uint32 holds `i <= ack` never fails, and `i` wraps.
ack_loop_forever : (fuel i : ℕ) (s : AckState) → i < 2 ^ 32 → ack_loop fuel i (2 ^ 32 - 1) s ≡ none
unfolding ack_loop
ack_loop_forever zero i s h = refl
ack_loop_forever (suc fuel) i s h =
    let more : leb i (2 ^ 32 - 1) ≡ true = ground arith in
    rw more (ack_loop_forever fuel (u32 (i + 1)) (drop_acked i s) (omega arith))

-- A reliable channel that is not broken and receives an acknowledgement of number 2^32 - 1 never
-- leaves its critical section: the loop needs more rounds than any number given.
pub received_packet_forever :
    (fuel now : ℕ) (c : Channel) (pkt : Packet)
    → c.broken ≡ false
    → c.reliable ≡ true
    → pkt.header.has_ack ≡ true
    → pkt.header.ack ≡ 2 ^ 32 - 1
    → received_packet fuel now c pkt ≡ none
unfolding received_packet receive_ack
received_packet_forever fuel now c pkt b r a h =
    let stuck : ack_loop fuel (u32 (c.o_acked_seq + 1)) pkt.header.ack
          (raise_acked c pkt.header.ack)
        ≡ none =
      rw h (
        ack_loop_forever fuel (u32 (c.o_acked_seq + 1)) (raise_acked c (2 ^ 32 - 1))
          (omega arith)) in
    ground (arith, stuck)

raise_acked-max :
    (c : Channel) (ack : ℕ)
    → ((raise_acked c ack).chan.o_acked_seq ≡ max c.o_acked_seq ack)
      × ((raise_acked c ack).chan.write_buffer ≡ c.write_buffer)
unfolding raise_acked
raise_acked-max c ack = ground arith

signal_if-buffer :
    (b : Bool) (v : Cond) (c : Channel)
    → ((signal_if b v c).write_buffer ≡ c.write_buffer)
      × ((signal_if b v c).o_acked_seq ≡ c.o_acked_seq)
signal_if-buffer true v c = (refl, refl)
signal_if-buffer false v c = (refl, refl)

finish_ack-buffer :
    (now : ℕ) (hdr : Header) (s : AckState)
    → hdr.has_miss ≡ false
    → ((finish_ack now hdr s).write_buffer ≡ s.chan.write_buffer)
      × ((finish_ack now hdr s).o_acked_seq ≡ s.chan.o_acked_seq)
unfolding finish_ack
finish_ack-buffer now hdr s m =
    let c = s.chan in
    let c1 : Channel = if is_empty c.write_buffer then record c { needs_resend = false } else c in
    let c2 = signal_if s.changed write c1 in
    let b = s.changed && (c2.delivered_end || c2.received_end) in
    let k1 : (c1.write_buffer ≡ c.write_buffer) × (c1.o_acked_seq ≡ c.o_acked_seq) = ground arith in
    let k2 = signal_if-buffer s.changed write c1 in
    let k3 = signal_if-buffer b close c2 in rw m (k3.0 ∙ k2.0 ∙ k1.0, k3.1 ∙ k2.1 ∙ k1.1)

-- While the numbers acknowledged before and now are below 2^32 - 1, and the fuel is above the
-- latter by two, handling an acknowledgement that reports nothing missing comes to an end, and
-- takes out of the write buffer just the packets from the one behind the highest acknowledged
-- before up to the one acknowledged now; the higher of the two counts as acknowledged from then
-- on.
pub receive_ack_lem :
    (fuel now : ℕ) (c : Channel) (hdr : Header)
    → c.o_acked_seq + 1 < 2 ^ 32
    → hdr.ack + 1 < 2 ^ 32
    → hdr.ack + 1 < fuel
    → hdr.has_miss ≡ false
    → (d : Channel) × (receive_ack fuel now c hdr ≡ some d)
      × (d.o_acked_seq ≡ max c.o_acked_seq hdr.ack)
      × ((k : ℕ)
          → lookup k d.write_buffer
            ≡ (if between (c.o_acked_seq + 1) hdr.ack k then none else lookup k c.write_buffer))
unfolding receive_ack
receive_ack_lem fuel now c hdr b1 b2 f m =
    let s = raise_acked c hdr.ack in
    let up : u32 (c.o_acked_seq + 1) ≡ c.o_acked_seq + 1 = omega arith in
    let (t, e, d) =
      ack_loop-Dropped fuel (c.o_acked_seq + 1) hdr.ack s b2 (omega arith) (omega arith) in
    let start = raise_acked-max c hdr.ack in
    let done = finish_ack-buffer now hdr t m in
    (
      finish_ack now hdr t,
      ap (after_ack now hdr) (ap (λ (i : ℕ). ack_loop fuel i hdr.ack s) up ∙ e),
      done.1 ∙ d.same_acked ∙ start.0,
      λ k.
          ap (lookup k) done.0
          ∙ d.buffer k
          ∙ ap (λ m. if between (c.o_acked_seq + 1) hdr.ack k then none else lookup k m) start.1,
    )

-- With a fuel above the number that is acknowledged, the acknowledgement is received.
pub receive_ack_returns :
    (fuel now : ℕ) (c : Channel) (hdr : Header)
    → c.o_acked_seq + 1 < 2 ^ 32
    → hdr.ack + 1 < 2 ^ 32
    → hdr.ack + 1 < fuel
    → (d : Channel) × (receive_ack fuel now c hdr ≡ some d)
unfolding receive_ack
receive_ack_returns fuel now c hdr b1 b2 f =
    let (t, e, k) =
      ack_loop-Dropped fuel (u32 (c.o_acked_seq + 1)) hdr.ack (raise_acked c hdr.ack) b2
        (omega arith) (omega arith) in
    (finish_ack now hdr t, ap (after_ack now hdr) e)
