-- ===== src/Channel/Close.antt =====
-- e3x/channel.go: `Error` and `Close`. `Close` waits in three places, so it is a machine: a phase is
-- the code between two places where the loop may wait, and `close_step` runs one phase.
use gogotelehash.Prelude.{true, [], ◌∷◌, Option, none, some, if◌then◌else◌, Bool, false}
use gogotelehash.Lob.Packet.{Bytes, Packet, Value, empty_packet, empty_header}
use gogotelehash.Channel.Types.{Channel, Error, eof, closed, emit, broken_error}
use gogotelehash.Channel.Guards.{block_read, block_write, block_close}
use gogotelehash.Channel.Send.{set_close_deadline, write}
use gogotelehash.Channel.Read.{Attempt, waits, panics, done, Read, peek_packet, then_consume}
use gogotelehash.Channel.Deadlines.{unset_timers, wake_all}

-- `pkt.Header().SetString("err", err.Error())` on an empty packet.
abbrev pub error_packet : Bytes → Packet
error_packet message = record empty_packet {
  header = record empty_header { extra = (b'e' ∷ b'r' ∷ b'r' ∷ [], Value.string message) ∷ [] };
}

-- `Error` from its waiting loop on.
unfoldable pub error_attempt : Channel → Bytes → Attempt (Channel × Option Error)
error_attempt c message =
    if block_write c
    then waits
    else if c.delivered_end
    then done (c, none)
    else done (
        let (c1, failure) = write c (error_packet message) none in
        elim failure [
          | some e ↦ (c1, some e)
          | none ↦ (emit closed (wake_all (record c1 { broken = true })), none)
        ])

-- `Error` from its start: the check of `broken` is made once.
unfoldable pub error : Channel → Bytes → Attempt (Channel × Option Error)
unfolding error_attempt
error c message = if c.broken then done (c, some (broken_error c)) else error_attempt c message

-- Where `Close` goes on when it holds the lock again.
pub data ClosePhase : Type 0 where
  enter send_end drain settle : ClosePhase

pub data CloseStep : Type 0 where
  wait panic : CloseStep
  continue : ClosePhase → Channel → CloseStep
  return : Channel → Option Error → CloseStep

abbrev pub end_packet : Packet
end_packet = record empty_packet { header = record empty_header { end = true; has_end = true } }

-- `if err := c.write(pkt, nil); err != nil { … return err }`.
abbrev pub close_sent : Channel → Option Error → CloseStep
close_sent c none = continue drain c
close_sent c (some e) = return c (some e)

-- `for c.blockWrite() { … }`, and the `end` packet unless another goroutine has sent it.
unfoldable pub close_send_end : Channel → CloseStep
close_send_end c =
    if block_write c
    then wait
    else if c.delivered_end
    then continue drain c
    else close_sent (write c end_packet none).0 (write c end_packet none).1

-- `err == io.EOF`.
abbrev pub is_eof : Error → Bool
is_eof eof = true
is_eof _ = false

-- What the round does with the error of `peekPacket`.
abbrev pub drained : Channel → Option Error → CloseStep
drained c none = continue drain c
drained c (some e) = if is_eof e then continue settle c else return c (some e)

abbrev pub drain_result : Attempt Read → CloseStep
drain_result waits = wait
drain_result panics = panic
drain_result (done r) = drained r.chan r.error

-- One round of the loop that reads up to the end of the stream.
unfoldable pub close_drain : Channel → CloseStep
close_drain c = if block_read c then wait else drain_result (then_consume (peek_packet c))

-- From `for c.blockClose()` on.
unfoldable pub close_settle : Channel → CloseStep
unfolding unset_timers
close_settle c =
    if block_close c
    then wait
    else if c.broken
    then return c (some (broken_error c))
    else return (emit closed (wake_all (unset_timers c))) none

unfoldable pub close_enter : Channel → CloseStep
unfolding set_close_deadline
close_enter c =
    if c.broken
    then return c (some (broken_error c))
    else if c.delivered_end
    then continue drain (set_close_deadline c)
    else continue send_end (set_close_deadline c)

unfoldable pub close_step : ClosePhase → Channel → CloseStep
unfolding close_enter close_send_end close_drain close_settle
close_step enter c = close_enter c
close_step send_end c = close_send_end c
close_step drain c = close_drain c
close_step settle c = close_settle c
