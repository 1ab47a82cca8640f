-- ===== src/Channel/Outcome.antt =====
-- e3x/channel.go: what a write does, on each of its branches.
use gogotelehash.Channel.Guards.{block_write}
use gogotelehash.Channel.Deadlines.{kill, on_close_deadline_reached, on_open_deadline_reached}
use gogotelehash.Channel.Read.{waits, write_packet_to}
use gogotelehash.Channel.Sent.{IsSent}
use gogotelehash.Channel.Send.{write}
use gogotelehash.Channel.Types.{
  Channel, Error, timeout, eof, deliver, free, WriteBufferEntry, broken_error,
}
use gogotelehash.Lob.Packet.{Packet}
use gogotelehash.Prelude.Map.{lookup}
use gogotelehash.Prelude.{
  ℕ, ◌≡◌, true, false, arith, Option, some, ◌||◌, ◌⊎◌, none, ◌∷◌, if◌then◌else◌,
}

-- The packet awaits its acknowledgement.
abbrev pub IsBuffered : Channel → ℕ → Packet → Type 0
IsBuffered c n pkt = (e : WriteBufferEntry) × (lookup n c.write_buffer ≡ some e) × (e.pkt ≡ pkt)

-- Where `write` comes to before the delivery.
record Stored (c d : Channel) (n : ℕ) (pkt sent : Packet) : Type 0 where
  same_seq : d.o_seq ≡ n
  same_log : d.log ≡ c.log
  same_kind : d.reliable ≡ c.reliable
  same_exchange : d.x ≡ c.x
  sent_as : IsSent c n pkt sent
  stored : c.reliable ≡ true → IsBuffered d n sent

-- What `write` has done with the packet that it sent, when it returns the answer of the exchange.
pub record Written (c d : Channel) (n : ℕ) (pkt : Packet) (p : Option ℕ) (answer : Option Error)
    : Type 0 where
  pub sent : Packet
  pub sent_as : IsSent c n pkt sent
  pub asked : answer ≡ c.x.deliver_packet c.log sent p
  pub next_seq : d.o_seq ≡ n
  pub logged :
      (d.log ≡ deliver sent p ∷ c.log)
      ⊎ ((c.reliable ≡ false) × (answer ≡ none) × (d.log ≡ free sent ∷ deliver sent p ∷ c.log))
  pub stored : c.reliable ≡ true → IsBuffered d n sent

-- The answer of a write that is refused.
abbrev pub refusal : Channel → Error
refusal c = if c.broken then broken_error c else if c.write_deadline_reached then timeout else eof

-- On a channel that is broken, has met its write deadline or has sent `end`, a write that need not
-- wait changes nothing, hands nothing to the exchange, and answers, with that precedence, the error
-- of a broken channel, the timeout, or EOF.
write_refused :
    (c : Channel) (pkt : Packet) (p : Option ℕ)
    → c.broken || (c.write_deadline_reached || c.delivered_end) ≡ true
    → write c pkt p ≡ (c, some (refusal c))
unfolding write
write_refused c pkt p h = ground (arith, h)

-- A writer that has to wait still has to after `Kill` or either of the two deadlines that break
-- the channel: `blockWrite` does not ask whether the channel is broken, so the writer does not get
-- its error when it is woken.
pub blocked_writer_stays :
    (c : Channel) (pkt : Packet) (p : Option ℕ)
    → block_write c ≡ true
    → (write_packet_to (kill c) pkt p ≡ waits)
      × (write_packet_to (on_close_deadline_reached c) pkt p ≡ waits)
      × (write_packet_to (on_open_deadline_reached c) pkt p ≡ waits)
unfolding write_packet_to kill on_close_deadline_reached on_open_deadline_reached block_write
blocked_writer_stays c pkt p h = (ground arith, ground arith, ground arith)
