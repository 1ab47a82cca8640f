-- ===== src/Channel/Guards.antt =====
-- e3x/channel.go: the conditions under which a goroutine waits, and the acknowledged sequence.
use gogotelehash.Prelude.{
  ℕ, ◌+◌, Bool, true, false, not, ◌&&◌, List, [], ◌∷◌, if◌then◌else◌, ◌==◌, leb, ltb, length,
}
use gogotelehash.Channel.Types.{
  Channel, ReadBufferEntry, blank_seq, initial_seq, write_buffer_size, u32,
}

unfoldable pub block_write : Channel → Bool
block_write c =
    if c.write_deadline_reached
    then false
    else if c.serverside && c.i_seq == blank_seq
    then true
    else if not c.serverside
        && ((c.i_seq == blank_seq && c.o_acked_seq == blank_seq) && leb initial_seq c.o_seq)
    then true
    else if leb write_buffer_size (length c.write_buffer)
    then true
    else false

-- `len(c.readBuffer) == 0 || c.readBuffer[0].seq != rSeq`.
abbrev pub head_differs : List ReadBufferEntry → ℕ → Bool
head_differs [] r_seq = true
head_differs (e ∷ es) r_seq = not (e.seq == r_seq)

unfoldable pub block_read : Channel → Bool
block_read c =
    if c.broken
    then false
    else if c.read_deadline_reached
    then false
    else if c.read_end
    then false
    else if c.serverside && (c.o_seq == blank_seq && leb initial_seq c.i_seq)
    then true
    else if not c.serverside && c.o_seq == blank_seq
    then true
    else if head_differs c.read_buffer (u32 (c.i_seq + 1))
    then true
    else false

unfoldable pub block_close : Channel → Bool
block_close c =
    if c.broken
    then false
    else if not c.read_end
    then true
    else if c.reliable && ltb 0 (length c.write_buffer)
    then true
    else false
