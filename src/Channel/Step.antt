-- ===== src/Channel/Step.antt =====
-- e3x/channel.go: the interleavings of a channel's goroutines. Each critical section is one step; a
-- call that would wait takes no step, and neither does one that never returns.
use gogotelehash.Prelude.{ℕ, ◌≡◌, Option, some}
use gogotelehash.Lob.Packet.{Bytes, Packet}
use gogotelehash.Channel.Types.{Channel, Error}
use gogotelehash.Channel.Send.{auto_deliver_ack, resend_last_packet, resend_delivery}
use gogotelehash.Channel.Read.{done, Read, read_packet_attempt, write_packet_to}
use gogotelehash.Channel.Receive.{Outcome, received_packet}
use gogotelehash.Channel.Deadlines.{
  on_close_deadline_reached, on_open_deadline_reached, kill, set_deadline, set_read_deadline,
  set_write_deadline, on_read_deadline_reached, on_write_deadline_reached,
}
use gogotelehash.Channel.Close.{error, error_attempt, ClosePhase, continue, return, close_step}

pub data Step (c : Channel) : Channel → Type 0 where
  writes :
      {d : Channel} (pkt : Packet) (p : Option ℕ) (err : Option Error)
      → write_packet_to c pkt p ≡ done (d, err)
      → Step c d
  reads : (r : Read) → read_packet_attempt c ≡ done r → Step c r.chan
  receives :
      {d : Channel} (fuel now : ℕ) (pkt : Packet) (o : Outcome)
      → received_packet fuel now c pkt ≡ some (d, o)
      → Step c d
  errors :
      {d : Channel} (message : Bytes) (err : Option Error)
      → error c message ≡ done (d, err)
      → Step c d
  errors_on :
      {d : Channel} (message : Bytes) (err : Option Error)
      → error_attempt c message ≡ done (d, err)
      → Step c d
  closes : {d : Channel} (p q : ClosePhase) → close_step p c ≡ continue q d → Step c d
  closed_by :
      {d : Channel} (p : ClosePhase) (err : Option Error) → close_step p c ≡ return d err → Step c d
  acks : Step c (auto_deliver_ack c)
  resends : (now : ℕ) → Step c (resend_last_packet c now).0
  redelivers : (out : Option (Packet × Option ℕ)) → Step c (resend_delivery c out)
  kills : Step c (kill c)
  close_deadline : Step c (on_close_deadline_reached c)
  open_deadline : Step c (on_open_deadline_reached c)
  read_deadline : Step c (on_read_deadline_reached c)
  write_deadline : Step c (on_write_deadline_reached c)
  deadlines : (now d : ℕ) → Step c (set_deadline now d c)
  read_deadlines : (now d : ℕ) → Step c (set_read_deadline now d c)
  write_deadlines : (now d : ℕ) → Step c (set_write_deadline now d c)

-- What is reached from `c` by the steps of any goroutines, in any order.
pub data Reach (c : Channel) : Channel → Type 0 where
  here : Reach c c
  next : {d e : Channel} → Reach c d → Step d e → Reach c e
