-- ===== src/Channel/Read.antt =====
-- e3x/channel.go: `ReadPacket`, `peekPacket` and `readPacket`, and the blocking calls that writers
-- make. A blocking call is one attempt: `waits` when its loop would wait on the condition variable;
-- after a wake-up the code runs the attempt again, on the state of that moment.
use gogotelehash.Prelude.{
  ℕ, ◌+◌, Bool, true, false, not, ◌&&◌, List, [], ◌∷◌, Option, none, some, if◌then◌else◌, ◌==◌,
}
use gogotelehash.Lob.Packet.{Packet, is_zero, is_empty}
use gogotelehash.Channel.Types.{
  Channel, ReadBufferEntry, Error, timeout, eof, Cond, read, write, close, signal, emit,
  broken_error, initial_seq, u32,
}
use gogotelehash.Channel.Guards.{block_read, block_write, block_close}
use gogotelehash.Channel.Send.{
  deliver_ack, maybe_deliver_ad_hoc_ack, unset_open_deadline, write as write_locked,
}

-- One attempt of a blocking call. `panics` is an index out of range.
pub data Attempt {ℓ} (A : Type ℓ) : Type ℓ where
  waits panics : Attempt A
  done : A → Attempt A

abbrev pub signal_if : Bool → Cond → Channel → Channel
signal_if true v c = emit (signal v) c
signal_if false v c = c

-- The steps of `readPacket`, on the entry `e` that it takes off the buffer.
unfoldable pub take_entry : Channel → ReadBufferEntry → List ReadBufferEntry → Channel
take_entry c e rest = record c { i_seq = u32 (c.i_seq + 1); read_buffer = rest }

unfoldable pub end_entry : Channel → ReadBufferEntry → Channel
end_entry c e = if e.end then (let c' = deliver_ack c in record c' { read_end = true }) else c

unfoldable pub opened_by_read : Channel → Channel
unfolding unset_open_deadline
opened_by_read c = if c.i_seq == initial_seq && not c.serverside then unset_open_deadline c else c

unfoldable pub signal_after_read : Channel → Channel
signal_after_read c =
    let c1 = signal_if (c.delivered_end && not (block_close c)) close c in
    let c2 = signal_if (not (block_read c1)) read c1 in signal_if (not (block_write c2)) write c2

unfoldable pub read_entry : Channel → ReadBufferEntry → List ReadBufferEntry → Channel
unfolding take_entry end_entry opened_by_read signal_after_read
read_entry c e rest =
    signal_after_read
      (maybe_deliver_ad_hoc_ack (opened_by_read (end_entry (take_entry c e rest) e)))

-- `readPacket` indexes the buffer at 0: `none` is its panic.
unfoldable pub read_packet : Channel → Option Channel
read_packet c = elim c.read_buffer [ [] ↦ none | e ∷ rest ↦ some (read_entry c e rest) ]

-- `{ // clean headers … }`
abbrev pub clean_headers : Packet → Packet
clean_headers pkt =
    let h = pkt.header in
    record pkt {
      header = record h {
        has_ack = false;
        has_c = false;
        has_miss = false;
        has_seq = false;
        has_type = false;
        has_end = false;
      };
    }

-- An `end` packet with no body and no other headers.
abbrev pub is_bare_end : ReadBufferEntry → Bool
is_bare_end e = is_empty e.pkt.body && (is_zero e.pkt.header && e.end)

pub record Read : Type 0 where
  pub chan : Channel
  pub pkt : Option Packet
  pub error : Option Error

-- `peekPacket` behind its three checks: the headers of the buffered packet are cleaned in place.
unfoldable pub peek_entry : Channel → ReadBufferEntry → List ReadBufferEntry → Read
peek_entry c e rest =
    let e' = record e { pkt = clean_headers e.pkt } in
    if is_bare_end e'
    then record { chan = read_entry c e' rest; pkt = none; error = some eof }
    else record { chan = record c { read_buffer = e' ∷ rest }; pkt = some e'.pkt; error = none }

abbrev pub no_packet : Channel → Error → Read
no_packet c err = record { chan = c; pkt = none; error = some err }

unfoldable pub peek_packet : Channel → Attempt Read
peek_packet c =
    if c.broken
    then done (no_packet c (broken_error c))
    else if c.read_deadline_reached
    then done (no_packet c timeout)
    else if c.read_end
    then done (no_packet c eof)
    else elim c.read_buffer [ [] ↦ panics | e ∷ rest ↦ done (peek_entry c e rest) ]

-- `if pkt != nil { c.readPacket() }`
unfoldable pub consume_read : Read → Attempt Read
unfolding read_packet
consume_read r = elim r.pkt [
  | none ↦ done r
  | some p ↦ elim (read_packet r.chan) [ none ↦ panics | some c ↦ done (record r { chan = c }) ]
]

abbrev pub then_consume : Attempt Read → Attempt Read
then_consume waits = waits
then_consume panics = panics
then_consume (done r) = consume_read r

unfoldable pub read_packet_attempt : Channel → Attempt Read
unfolding peek_packet consume_read
read_packet_attempt c = if block_read c then waits else then_consume (peek_packet c)

-- `WritePacketTo`.
unfoldable pub write_packet_to : Channel → Packet → Option ℕ → Attempt (Channel × Option Error)
write_packet_to c pkt p =
    if block_write c
    then waits
    else done (
        let (c1, err) = write_locked c pkt p in
        let c2 = signal_if (not (block_write c1)) write c1 in
        (signal_if (not (block_read c2)) read c2, err))
