-- ===== src/Channel/Invariant/Step.antt =====
-- e3x/channel.go: the invariant over every step of every goroutine, from a new channel on.
use gogotelehash.Channel.Close.{ClosePhase, CloseStep, close_step, error}
use gogotelehash.Channel.Deadlines.{
  set_deadline, set_read_deadline, set_write_deadline, on_read_deadline_reached,
  on_write_deadline_reached,
}
use gogotelehash.Channel.Invariant.Defs.{IsWellFormed}
use gogotelehash.Channel.Invariant.Frame.{
  Keeps-IsWellFormed, auto_deliver_ack-Keeps, resend_last_packet-Keeps, resend_delivery-Keeps,
  on_close_deadline_reached-Keeps, on_open_deadline_reached-Keeps, kill-Keeps,
}
use gogotelehash.Channel.Invariant.Read.{IsSafe, read_packet_attempt-IsSafe}
use gogotelehash.Channel.Invariant.Receive.{Received, received_packet-Received}
use gogotelehash.Channel.Invariant.Write.{
  Leaves, write_packet_to-Leaves, error_attempt-Leaves, Closes, close_step-Closes,
}
use gogotelehash.Channel.Read.{Attempt, read_packet_attempt}
use gogotelehash.Channel.Step.{
  Step, writes, reads, receives, errors, errors_on, closes, closed_by, acks, resends, redelivers,
  kills, close_deadline, open_deadline, read_deadline, write_deadline, deadlines, read_deadlines,
  write_deadlines, Reach, here, next,
}
use gogotelehash.Channel.Types.{Channel, ExchangeI, new_channel}
use gogotelehash.Lob.Packet.{Bytes}
use gogotelehash.Prelude.{subst, ◌≢◌, Bool, arith}

error-Leaves : (c : Channel) (message : Bytes) → IsWellFormed c → Leaves (error c message)
unfolding error
error-Leaves c message w = ground (arith, w, error_attempt-Leaves c message w)

pub Step-IsWellFormed : {c d : Channel} → Step c d → IsWellFormed c → IsWellFormed d
unfolding set_deadline set_read_deadline set_write_deadline on_read_deadline_reached
    on_write_deadline_reached
Step-IsWellFormed {c} (writes pkt p err h) w = subst Leaves h (write_packet_to-Leaves c pkt p w)
Step-IsWellFormed {c} (reads r h) w = subst IsSafe h (read_packet_attempt-IsSafe c w)
Step-IsWellFormed {c} (receives fuel now pkt o h) w =
    subst Received h (received_packet-Received fuel now c pkt w)
Step-IsWellFormed {c} (errors message err h) w = subst Leaves h (error-Leaves c message w)
Step-IsWellFormed {c} (errors_on message err h) w =
    subst Leaves h (error_attempt-Leaves c message w)
Step-IsWellFormed {c} (closes p q h) w = subst Closes h (close_step-Closes p c w)
Step-IsWellFormed {c} (closed_by p err h) w = subst Closes h (close_step-Closes p c w)
Step-IsWellFormed {c} acks w = Keeps-IsWellFormed w (auto_deliver_ack-Keeps c)
Step-IsWellFormed {c} (resends now) w = Keeps-IsWellFormed w (resend_last_packet-Keeps c now)
Step-IsWellFormed {c} (redelivers out) w = Keeps-IsWellFormed w (resend_delivery-Keeps c out)
Step-IsWellFormed {c} kills w = Keeps-IsWellFormed w (kill-Keeps c)
Step-IsWellFormed {c} close_deadline w = Keeps-IsWellFormed w (on_close_deadline_reached-Keeps c)
Step-IsWellFormed {c} open_deadline w = Keeps-IsWellFormed w (on_open_deadline_reached-Keeps c)
Step-IsWellFormed read_deadline w = record {
  read_side = w.read_side;
  acked = w.acked;
  window = w.window;
}
Step-IsWellFormed write_deadline w = record {
  read_side = w.read_side;
  acked = w.acked;
  window = w.window;
}
Step-IsWellFormed (deadlines now t) w = record {
  read_side = w.read_side;
  acked = w.acked;
  window = w.window;
}
Step-IsWellFormed (read_deadlines now t) w = record {
  read_side = w.read_side;
  acked = w.acked;
  window = w.window;
}
Step-IsWellFormed (write_deadlines now t) w = record {
  read_side = w.read_side;
  acked = w.acked;
  window = w.window;
}

new_channel-IsWellFormed :
    (hn typ : Bytes) (reliable serverside : Bool) (x : ExchangeI)
    → IsWellFormed (new_channel hn typ reliable serverside x)
unfolding new_channel
new_channel-IsWellFormed hn typ reliable serverside x = record {
  read_side = record {
    ordered = tt;
    bounded = omega arith;
    buffered = tt;
    read_buffered = omega arith;
    seen = λ r. tt;
    read_seen = λ r. omega arith;
  };
  acked = omega arith;
  window = omega arith;
}

Reach-IsWellFormed : {c d : Channel} → IsWellFormed c → Reach c d → IsWellFormed d
Reach-IsWellFormed w here = w
Reach-IsWellFormed w (next r s) = Step-IsWellFormed s (Reach-IsWellFormed w r)

-- After any interleaving of calls, received packets and timers, a channel made by `newChannel` has a
-- read buffer of at most 100 packets in strictly ascending order, all behind the last packet read
-- and none behind the highest one buffered, nor (if it is reliable) behind the highest one seen; it
-- has acknowledged no more than was read, and at most 100 packets await acknowledgement.
pub new_channel-Reach-IsWellFormed :
    (hn typ : Bytes) (reliable serverside : Bool) (x : ExchangeI) {d : Channel}
    → Reach (new_channel hn typ reliable serverside x) d
    → IsWellFormed d
new_channel-Reach-IsWellFormed hn typ reliable serverside x r =
    Reach-IsWellFormed (new_channel-IsWellFormed hn typ reliable serverside x) r

-- In every state that a new channel reaches, neither an attempt of `ReadPacket` nor any phase of
-- `Close` indexes an empty read buffer.
pub new_channel-Reach-ne-panics :
    (hn typ : Bytes) (reliable serverside : Bool) (x : ExchangeI) {d : Channel}
    → Reach (new_channel hn typ reliable serverside x) d
    → (read_packet_attempt d ≢ Attempt.panics)
      × ((p : ClosePhase) → close_step p d ≢ CloseStep.panic)
new_channel-Reach-ne-panics hn typ reliable serverside x {d} r =
    let w = new_channel-Reach-IsWellFormed hn typ reliable serverside x r in
    (
      λ h. subst IsSafe h (read_packet_attempt-IsSafe d w),
      λ p h. subst Closes h (close_step-Closes p d w),
    )
