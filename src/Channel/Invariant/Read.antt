-- ===== src/Channel/Invariant/Read.antt =====
-- e3x/channel.go: reading keeps the invariant, and never indexes an empty buffer.
use gogotelehash.Channel.Ascends.{Ascends, AtMost}
use gogotelehash.Channel.Guards.{block_read, block_write, block_close}
use gogotelehash.Channel.Invariant.Defs.{IsWellFormed}
use gogotelehash.Channel.Invariant.Frame.{
  Keeps, Keeps-refl, Keeps-trans, Keeps-IsWellFormed, deliver_ack-Keeps,
  maybe_deliver_ad_hoc_ack-Keeps, signal_if-Keeps,
}
use gogotelehash.Channel.Read.{
  Attempt, waits, panics, done, Read, take_entry, end_entry, opened_by_read, signal_after_read,
  read_entry, peek_entry, peek_packet, consume_read, then_consume, read_packet_attempt,
  clean_headers, is_bare_end, signal_if,
}
use gogotelehash.Channel.Types.{Channel, ReadBufferEntry, u32, read, write, close}
use gogotelehash.Prelude.{
  ◌+◌, ◌≡◌, refl, ap, subst, List, [], ◌∷◌, arith, length, not, ◌&&◌, inl, inr, false, Bool-cases,
}

take_entry-IsWellFormed :
    (c : Channel) (e : ReadBufferEntry) (rest : List ReadBufferEntry)
    → IsWellFormed c
    → c.read_buffer ≡ e ∷ rest
    → e.seq ≡ u32 (c.i_seq + 1)
    → IsWellFormed (take_entry c e rest)
unfolding take_entry
take_entry-IsWellFormed c e rest w b h =
    let o = subst (Ascends c.i_seq) b w.read_side.ordered in
    let f = subst (AtMost c.i_buffered_seq) b w.read_side.buffered in
    let n = ap (length {0}) b in
    record {
      read_side = record {
        ordered = rw (← h) o.1;
        bounded = omega (arith, w.read_side.bounded, n);
        buffered = f.1;
        read_buffered = omega (arith, f.0, h);
        seen = λ r. (subst (AtMost c.i_seen_seq) b (w.read_side.seen r)).1;
        read_seen = λ r. omega (arith, (subst (AtMost c.i_seen_seq) b (w.read_side.seen r)).0, h);
      };
      acked = omega (arith, w.acked, o.0, h);
      window = w.window;
    }

end_entry-Keeps : (c : Channel) (e : ReadBufferEntry) → Keeps c (end_entry c e)
unfolding end_entry
end_entry-Keeps c e = ground (arith, deliver_ack-Keeps c, Keeps-refl c)

opened_by_read-Keeps : (c : Channel) → Keeps c (opened_by_read c)
unfolding opened_by_read
opened_by_read-Keeps c = ground arith

signal_after_read-Keeps : (c : Channel) → Keeps c (signal_after_read c)
unfolding signal_after_read
signal_after_read-Keeps c =
    let b1 = c.delivered_end && not (block_close c) in
    let c1 = signal_if b1 close c in
    let b2 = not (block_read c1) in
    let c2 = signal_if b2 read c1 in
    Keeps-trans (signal_if-Keeps b1 close c)
      (Keeps-trans (signal_if-Keeps b2 read c1) (signal_if-Keeps (not (block_write c2)) write c2))

-- All that `readPacket` does behind the removal of the entry leaves the reading side alone.
pub read_entry-Keeps :
    (c : Channel) (e : ReadBufferEntry) (rest : List ReadBufferEntry)
    → Keeps (take_entry c e rest) (read_entry c e rest)
unfolding read_entry
read_entry-Keeps c e rest = Keeps-trans (end_entry-Keeps (take_entry c e rest) e) (
    Keeps-trans (opened_by_read-Keeps _)
      (Keeps-trans (maybe_deliver_ad_hoc_ack-Keeps _) (signal_after_read-Keeps _)))

read_entry-IsWellFormed :
    (c : Channel) (e : ReadBufferEntry) (rest : List ReadBufferEntry)
    → IsWellFormed c
    → c.read_buffer ≡ e ∷ rest
    → e.seq ≡ u32 (c.i_seq + 1)
    → IsWellFormed (read_entry c e rest)
read_entry-IsWellFormed c e rest w b h =
    Keeps-IsWellFormed (take_entry-IsWellFormed c e rest w b h) (read_entry-Keeps c e rest)

-- Cleaning the headers of the first packet changes no sequence number.
replace_head-IsWellFormed :
    (c : Channel) (e e' : ReadBufferEntry) (rest : List ReadBufferEntry)
    → IsWellFormed c
    → c.read_buffer ≡ e ∷ rest
    → e'.seq ≡ e.seq
    → IsWellFormed (record c { read_buffer = e' ∷ rest })
replace_head-IsWellFormed c e e' rest w b h =
    let o = subst (Ascends c.i_seq) b w.read_side.ordered in
    let f = subst (AtMost c.i_buffered_seq) b w.read_side.buffered in
    let n = ap (length {0}) b in
    record {
      read_side = record {
        ordered = rw h o;
        bounded = omega (arith, w.read_side.bounded, n);
        buffered = rw h f;
        read_buffered = w.read_side.read_buffered;
        seen = λ r. rw h (subst (AtMost c.i_seen_seq) b (w.read_side.seen r));
        read_seen = w.read_side.read_seen;
      };
      acked = w.acked;
      window = w.window;
    }

-- The outcome of a read: it does not panic, and leaves a well-formed channel.
abbrev pub IsSafe : Attempt Read → Type 0
IsSafe waits = Unit
IsSafe panics = ⊥
IsSafe (done r) = IsWellFormed r.chan

-- What the buffer was does not matter to the reading of an entry.
read_entry_buffer :
    (c : Channel) (e : ReadBufferEntry) (s rest : List ReadBufferEntry)
    → read_entry (record c { read_buffer = s }) e rest ≡ read_entry c e rest
unfolding read_entry take_entry
read_entry_buffer c e s rest = refl

consume_peek-IsSafe :
    (c : Channel) (e : ReadBufferEntry) (rest : List ReadBufferEntry)
    → IsWellFormed c
    → c.read_buffer ≡ e ∷ rest
    → e.seq ≡ u32 (c.i_seq + 1)
    → IsSafe (consume_read (peek_entry c e rest))
unfolding consume_read peek_entry
consume_peek-IsSafe c e rest w b h =
    let e' = record e { pkt = clean_headers e.pkt } in
    let w' = replace_head-IsWellFormed c e e' rest w b refl in
    let after = read_entry-IsWellFormed (record c { read_buffer = e' ∷ rest }) e' rest w' refl h in
    elim (Bool-cases (is_bare_end e')) [
      | inl bare ↦ rw bare (rw (read_entry_buffer c e' (e' ∷ rest) rest) at after)
      | inr more ↦ rw more after
    ]

-- A reader that may go on finds an empty buffer only where one of the three checks stops it.
peek_packet-cases :
    (c : Channel) (s : List ReadBufferEntry)
    → c.read_buffer ≡ s
    → IsWellFormed c
    → block_read c ≡ false
    → IsSafe (then_consume (peek_packet c))
unfolding peek_packet block_read consume_read
peek_packet-cases c [] b w h = ground arith
peek_packet-cases c (e ∷ rest) b w h = ground (arith, consume_peek-IsSafe c e rest w b)

pub then_consume-IsSafe :
    (c : Channel) → IsWellFormed c → block_read c ≡ false → IsSafe (then_consume (peek_packet c))
then_consume-IsSafe c = peek_packet-cases c c.read_buffer refl

-- One attempt of `ReadPacket`.
pub read_packet_attempt-IsSafe : (c : Channel) → IsWellFormed c → IsSafe (read_packet_attempt c)
unfolding read_packet_attempt
read_packet_attempt-IsSafe c w = elim (Bool-cases (block_read c)) [
  | inl blocked ↦ rw blocked tt
  | inr free ↦ rw free (then_consume-IsSafe c w free)
]
