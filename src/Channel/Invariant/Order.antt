-- ===== src/Channel/Invariant/Order.antt =====
-- e3x/channel.go: which steps move the reading side, and how.
use gogotelehash.Channel.Guards.{block_close, block_read, block_write, block_close}
use gogotelehash.Channel.Close.{
  continue, return, wait, panic, ClosePhase, CloseStep, close_step, error, error_attempt,
  error_packet, end_packet, close_enter, close_send_end, close_drain, close_settle, enter, send_end,
  drain, settle, drain_result, drained, close_sent, is_eof,
}
use gogotelehash.Channel.Deadlines.{
  set_deadline, set_read_deadline, set_write_deadline, on_read_deadline_reached,
  on_write_deadline_reached,
}
use gogotelehash.Channel.Invariant.Defs.{view}
use gogotelehash.Channel.Invariant.Frame.{
  apply_ack_headers-Keeps, set_close_deadline-Keeps, auto_deliver_ack-Keeps,
  resend_last_packet-Keeps, resend_delivery-Keeps, on_close_deadline_reached-Keeps,
  on_open_deadline_reached-Keeps, kill-Keeps, signal_if-Keeps,
}
use gogotelehash.Channel.Read.{
  waits, panics, done, Read, Attempt, peek_packet, then_consume, read_packet_attempt,
  write_packet_to, signal_if,
}
use gogotelehash.Channel.Receive.{received_packet, Outcome}
use gogotelehash.Channel.Send.{
  write_packet_headers, write_reliable, write_deliver, write as write_locked, inline_ack,
}
use gogotelehash.Channel.Step.{
  Step, writes, reads, receives, errors, errors_on, closes, closed_by, acks, resends, redelivers,
  kills, close_deadline, open_deadline, read_deadline, write_deadline, deadlines, read_deadlines,
  write_deadlines,
}
use gogotelehash.Channel.Types.{Channel, Error, read, write}
use gogotelehash.Lob.Packet.{Bytes, Packet}
use gogotelehash.Prelude.{
  ℕ, ◌≡◌, refl, ◌∙◌, inl, inr, Bool, false, not, Option, none, some, arith, Bool-cases, subst, true,
  if◌then◌else◌,
}

abbrev Same : Channel → Channel → Type 0
Same c d = view d ≡ view c

write_reliable-Same :
    (c : Channel) (pkt : Packet) (end : Bool) (p : Option ℕ) → Same c (write_reliable c pkt end p).0
unfolding write_reliable inline_ack
write_reliable-Same c pkt end p = ground (arith, (apply_ack_headers-Keeps c pkt).same_view)

write_packet_headers-Same : (c : Channel) (pkt : Packet) → Same c (write_packet_headers c pkt).0
unfolding write_packet_headers
write_packet_headers-Same c pkt = ground arith

write_deliver-Same : (c : Channel) (pkt : Packet) (p : Option ℕ) → Same c (write_deliver c pkt p).0
unfolding write_deliver
write_deliver-Same c pkt p = ground arith

write-Same : (c : Channel) (pkt : Packet) (p : Option ℕ) → Same c (write_locked c pkt p).0
unfolding write_locked
write-Same c pkt p =
    let h = write_packet_headers c pkt in
    let r = write_reliable h.0 h.1 h.2 p in
    let k =
      write_deliver-Same r.0 r.1 p
      ∙ write_reliable-Same h.0 h.1 h.2 p
      ∙ write_packet_headers-Same c pkt in
    ground (arith, k)

-- The outcomes of an attempt that does not move the reading side.
abbrev Stays : Channel → Attempt (Channel × Option Error) → Type 0
Stays c waits = Unit
Stays c panics = ⊥
Stays c (done r) = Same c r.0

write_packet_to-Stays :
    (c : Channel) (pkt : Packet) (p : Option ℕ) → Stays c (write_packet_to c pkt p)
unfolding write_packet_to
write_packet_to-Stays c pkt p = elim (Bool-cases (block_write c)) [
  | inl blocked ↦ rw blocked tt
  | inr free ↦ rw free (
      let r = write_locked c pkt p in
      let b = not (block_write r.0) in
      let c2 = signal_if b write r.0 in
      (signal_if-Keeps (not (block_read c2)) read c2).same_view
      ∙ (signal_if-Keeps b write r.0).same_view
      ∙ write-Same c pkt p)
]

error_attempt-Stays : (c : Channel) (message : Bytes) → Stays c (error_attempt c message)
unfolding error_attempt
error_attempt-Stays c message = ground (arith, write-Same c (error_packet message) none)

error-Stays : (c : Channel) (message : Bytes) → Stays c (error c message)
unfolding error
error-Stays c message = ground (arith, error_attempt-Stays c message)

-- The step is of one of three kinds: it leaves the reading side alone, it reads the buffer
-- (`ReadPacket`, or a round of `Close`), or it receives a packet.
pub data Kind (c d : Channel) : Type 0 where
  aside : view d ≡ view c → Kind c d
  reading :
      (r : Read)
      → block_read c ≡ false
      → then_consume (peek_packet c) ≡ done r
      → view d ≡ view r.chan
      → Kind c d
  receiving :
      (fuel now : ℕ) (pkt : Packet) (o : Outcome)
      → received_packet fuel now c pkt ≡ some (d, o)
      → Kind c d

abbrev CloseKind : Channel → CloseStep → Type 0
CloseKind c wait = Unit
CloseKind c panic = Unit
CloseKind c (continue p d) = Kind c d
CloseKind c (return d err) = Kind c d

close_sent-CloseKind : (c d : Channel) (o : Option Error) → Kind c d → CloseKind c (close_sent d o)
close_sent-CloseKind c d none k = k
close_sent-CloseKind c d (some e) k = k

drained-CloseKind : (c d : Channel) (o : Option Error) → Kind c d → CloseKind c (drained d o)
drained-CloseKind c d none k = k
drained-CloseKind c d (some e) k = elim (Bool-cases (is_eof e)) [
  | inl eof ↦ rw eof k
  | inr other ↦ rw other k
]

drain-CloseKind :
    (c : Channel) (a : Attempt Read)
    → block_read c ≡ false
    → then_consume (peek_packet c) ≡ a
    → CloseKind c (drain_result a)
drain-CloseKind c waits b h = tt
drain-CloseKind c panics b h = tt
drain-CloseKind c (done r) b h = drained-CloseKind c r.chan r.error (reading r b h refl)

if-CloseKind :
    (c : Channel) (b : Bool) (s t : CloseStep)
    → CloseKind c s
    → CloseKind c t
    → CloseKind c (if b then s else t)
if-CloseKind c true s t h k = h
if-CloseKind c false s t h k = k

close_step-Kind : (p : ClosePhase) (c : Channel) → CloseKind c (close_step p c)
unfolding close_step close_enter close_send_end close_drain close_settle
close_step-Kind enter c =
    let k = aside (set_close_deadline-Keeps c).same_view in
    if-CloseKind c c.broken _ _ (aside refl) (if-CloseKind c c.delivered_end _ _ k k)
close_step-Kind send_end c = if-CloseKind c (block_write c) _ _ tt (
    if-CloseKind c c.delivered_end _ _ (aside refl)
      (close_sent-CloseKind c _ _ (aside (write-Same c end_packet none))))
close_step-Kind drain c = elim (Bool-cases (block_read c)) [
  | inl blocked ↦ rw blocked tt
  | inr free ↦ rw free (drain-CloseKind c (then_consume (peek_packet c)) free refl)
]
close_step-Kind settle c =
    if-CloseKind c (block_close c) _ _ tt (if-CloseKind c c.broken _ _ (aside refl) (aside refl))

read_packet_attempt-Kind : (c : Channel) (r : Read) → read_packet_attempt c ≡ done r → Kind c r.chan
unfolding read_packet_attempt
read_packet_attempt-Kind c r h = elim (Bool-cases (block_read c)) [
  | inl blocked ↦ cc (rw blocked at h)
  | inr free ↦ reading r free (rw free at h) refl
]

pub Step-Kind : {c d : Channel} → Step c d → Kind c d
unfolding set_deadline set_read_deadline set_write_deadline on_read_deadline_reached
    on_write_deadline_reached
Step-Kind {c} (writes pkt p err h) = aside (subst (Stays c) h (write_packet_to-Stays c pkt p))
Step-Kind {c} (reads r h) = read_packet_attempt-Kind c r h
Step-Kind (receives fuel now pkt o h) = receiving fuel now pkt o h
Step-Kind {c} (errors message err h) = aside (subst (Stays c) h (error-Stays c message))
Step-Kind {c} (errors_on message err h) = aside (subst (Stays c) h (error_attempt-Stays c message))
Step-Kind {c} (closes p q h) = subst (CloseKind c) h (close_step-Kind p c)
Step-Kind {c} (closed_by p err h) = subst (CloseKind c) h (close_step-Kind p c)
Step-Kind {c} acks = aside (auto_deliver_ack-Keeps c).same_view
Step-Kind {c} (resends now) = aside (resend_last_packet-Keeps c now).same_view
Step-Kind {c} (redelivers out) = aside (resend_delivery-Keeps c out).same_view
Step-Kind {c} kills = aside (kill-Keeps c).same_view
Step-Kind {c} close_deadline = aside (on_close_deadline_reached-Keeps c).same_view
Step-Kind {c} open_deadline = aside (on_open_deadline_reached-Keeps c).same_view
Step-Kind read_deadline = aside refl
Step-Kind write_deadline = aside refl
Step-Kind (deadlines now t) = aside refl
Step-Kind (read_deadlines now t) = aside refl
Step-Kind (write_deadlines now t) = aside refl
