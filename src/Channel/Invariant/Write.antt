-- ===== src/Channel/Invariant/Write.antt =====
-- e3x/channel.go: writing, `Error` and `Close` keep the invariant.
use gogotelehash.Channel.Guards.{block_write}
use gogotelehash.Channel.Invariant.Defs.{IsWellFormed}
use gogotelehash.Channel.Invariant.Frame.{
  Keeps, Keeps-IsWellFormed, apply_ack_headers-Keeps, Keeps-trans,
}
use gogotelehash.Channel.Send.{
  apply_ack_headers, buffer_write, write_packet_headers, write_reliable, write_deliver,
  write as write_locked, inline_ack,
}
use gogotelehash.Channel.Types.{Channel, write_buffer_size, Error}
use gogotelehash.Lob.Packet.{Packet, Bytes}
use gogotelehash.Prelude.Map.{length-insert-le}
use gogotelehash.Prelude.{
  ℕ, ◌<◌, ◌≡◌, ◌⊎◌, inl, inr, Bool, true, false, Option, arith, length, not, none, Bool-cases,
}
use gogotelehash.Channel.Close.{
  error_attempt, error_packet, end_packet, ClosePhase, CloseStep, wait, panic, continue, return,
  drain_result, close_enter, close_send_end, close_drain, close_settle, close_step, enter, send_end,
  drain, settle,
}
use gogotelehash.Channel.Invariant.Read.{IsSafe, then_consume-IsSafe}
use gogotelehash.Channel.Read.{
  Attempt, waits, panics, done, Read, peek_packet, then_consume, write_packet_to, signal_if,
}
use gogotelehash.Channel.Guards.{block_read}
use gogotelehash.Channel.Invariant.Frame.{set_close_deadline-Keeps, signal_if-Keeps}
use gogotelehash.Channel.Types.{read, write}

write_packet_headers-Keeps : (c : Channel) (pkt : Packet) → Keeps c (write_packet_headers c pkt).0
unfolding write_packet_headers
write_packet_headers-Keeps c pkt = ground arith

write_deliver-Keeps :
    (c : Channel) (pkt : Packet) (p : Option ℕ) → Keeps c (write_deliver c pkt p).0
unfolding write_deliver
write_deliver-Keeps c pkt p = ground arith

buffer_write-IsWellFormed :
    (c : Channel) (pkt : Packet) (end : Bool) (p : Option ℕ)
    → IsWellFormed c
    → length c.write_buffer < write_buffer_size
    → IsWellFormed (buffer_write c pkt end p)
buffer_write-IsWellFormed c pkt end p w h = record {
  read_side = w.read_side;
  acked = w.acked;
  window = omega (
    arith,
    length-insert-le c.o_seq (record { pkt = pkt; end = end; last_resend = 0; dst = p })
        c.write_buffer,
  );
}

write_reliable-IsWellFormed :
    (c : Channel) (pkt : Packet) (end : Bool) (p : Option ℕ)
    → IsWellFormed c
    → length c.write_buffer < write_buffer_size
    → IsWellFormed (write_reliable c pkt end p).0
unfolding write_reliable inline_ack
write_reliable-IsWellFormed c pkt end p w h =
    let k = apply_ack_headers-Keeps c pkt in
    let acked = apply_ack_headers c pkt in
    ground (
      arith,
      w,
      buffer_write-IsWellFormed c pkt end p w h,
      buffer_write-IsWellFormed acked.0 acked.1 end p (Keeps-IsWellFormed w k)
          (omega (arith, k.window)),
    )

-- `write` needs room in the write buffer, unless a deadline stops it.
write-IsWellFormed :
    (c : Channel) (pkt : Packet) (p : Option ℕ)
    → IsWellFormed c
    → (length c.write_buffer < write_buffer_size) ⊎ (c.write_deadline_reached ≡ true)
    → IsWellFormed (write_locked c pkt p).0
unfolding write_locked
write-IsWellFormed c pkt p w (inr late) = ground (arith, w)
write-IsWellFormed c pkt p w (inl room) =
    let k = write_packet_headers-Keeps c pkt in
    let h = write_packet_headers c pkt in
    let r = write_reliable h.0 h.1 h.2 p in
    ground (
      arith,
      w,
      Keeps-IsWellFormed
          (write_reliable-IsWellFormed h.0 h.1 h.2 p (Keeps-IsWellFormed w k)
            (omega (arith, k.window)))
          (write_deliver-Keeps r.0 r.1 p),
    )

-- A writer that need not wait has that room.
pub room_to_write :
    (c : Channel)
    → block_write c ≡ false
    → (length c.write_buffer < write_buffer_size) ⊎ (c.write_deadline_reached ≡ true)
unfolding block_write
room_to_write c h = ground arith

-- The outcome of an attempt to write: it does not panic, and leaves a well-formed channel.
abbrev pub Leaves : Attempt (Channel × Option Error) → Type 0
Leaves waits = Unit
Leaves panics = ⊥
Leaves (done r) = IsWellFormed r.0

pub write_packet_to-Leaves :
    (c : Channel) (pkt : Packet) (p : Option ℕ) → IsWellFormed c → Leaves (write_packet_to c pkt p)
unfolding write_packet_to
write_packet_to-Leaves c pkt p w = elim (Bool-cases (block_write c)) [
  | inl blocked ↦ rw blocked tt
  | inr free ↦ rw free (
      let r = write_locked c pkt p in
      let b = not (block_write r.0) in
      let c2 = signal_if b write r.0 in
      Keeps-IsWellFormed (write-IsWellFormed c pkt p w (room_to_write c free))
        (Keeps-trans (signal_if-Keeps b write r.0) (signal_if-Keeps (not (block_read c2)) read c2)))
]

pub error_attempt-Leaves :
    (c : Channel) (message : Bytes) → IsWellFormed c → Leaves (error_attempt c message)
unfolding error_attempt
error_attempt-Leaves c message w = elim (Bool-cases (block_write c)) [
  | inl blocked ↦ rw blocked tt
  | inr free ↦ rw free (
      let after = write-IsWellFormed c (error_packet message) none w (room_to_write c free) in
      ground (arith, w, after, Keeps-IsWellFormed after))
]

-- The outcome of a phase of `Close`.
abbrev pub Closes : CloseStep → Type 0
Closes wait = Unit
Closes panic = ⊥
Closes (continue p d) = IsWellFormed d
Closes (return d err) = IsWellFormed d

close_enter-Closes : (c : Channel) → IsWellFormed c → Closes (close_enter c)
unfolding close_enter
close_enter-Closes c w =
    let k = Keeps-IsWellFormed w (set_close_deadline-Keeps c) in ground (arith, w, k)

close_send_end-Closes : (c : Channel) → IsWellFormed c → Closes (close_send_end c)
unfolding close_send_end
close_send_end-Closes c w = elim (Bool-cases (block_write c)) [
  | inl blocked ↦ rw blocked tt
  | inr free ↦ rw free (
      let after = write-IsWellFormed c end_packet none w (room_to_write c free) in
      ground (arith, w, after))
]

drain_result-Closes : (a : Attempt Read) → IsSafe a → Closes (drain_result a)
drain_result-Closes waits s = tt
drain_result-Closes panics s = s
drain_result-Closes (done r) s = ground (arith, s)

close_drain-Closes : (c : Channel) → IsWellFormed c → Closes (close_drain c)
unfolding close_drain
close_drain-Closes c w = elim (Bool-cases (block_read c)) [
  | inl blocked ↦ rw blocked tt
  | inr free ↦
      rw free (drain_result-Closes (then_consume (peek_packet c)) (then_consume-IsSafe c w free))
]

unset_timers-IsWellFormed : (c : Channel) → IsWellFormed c → Closes (close_settle c)
unfolding close_settle
unset_timers-IsWellFormed c w = ground (arith, w)

pub close_step-Closes : (p : ClosePhase) (c : Channel) → IsWellFormed c → Closes (close_step p c)
unfolding close_step
close_step-Closes enter c w = close_enter-Closes c w
close_step-Closes send_end c w = close_send_end-Closes c w
close_step-Closes drain c w = close_drain-Closes c w
close_step-Closes settle c w = unset_timers-IsWellFormed c w
