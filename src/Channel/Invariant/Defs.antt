-- ===== src/Channel/Invariant/Defs.antt =====
-- e3x/channel.go: what holds of a channel between two critical sections.
use gogotelehash.Channel.Ascends.{Ascends, AtMost}
use gogotelehash.Channel.Types.{Channel, ReadBufferEntry, read_buffer_size, write_buffer_size}
use gogotelehash.Prelude.{ℕ, ◌≤◌, ◌≡◌, Bool, true, List, length}

-- The fields that the reading side works on.
pub record ReadView : Type 0 where
  pub reliable : Bool
  pub i_seq : ℕ
  pub i_buffered_seq : ℕ
  pub i_seen_seq : ℕ
  pub read_buffer : List ReadBufferEntry

abbrev pub view : Channel → ReadView
view c = record {
  reliable = c.reliable;
  i_seq = c.i_seq;
  i_buffered_seq = c.i_buffered_seq;
  i_seen_seq = c.i_seen_seq;
  read_buffer = c.read_buffer;
}

-- The buffer holds at most 100 packets, strictly ordered, all behind the last packet read and none
-- behind the highest one buffered; on a reliable channel none behind the highest one seen.
pub record IsOrdered (v : ReadView) : Type 0 where
  pub ordered : Ascends v.i_seq v.read_buffer
  pub bounded : length v.read_buffer ≤ read_buffer_size
  pub buffered : AtMost v.i_buffered_seq v.read_buffer
  pub read_buffered : v.i_seq ≤ v.i_buffered_seq
  pub seen : v.reliable ≡ true → AtMost v.i_seen_seq v.read_buffer
  pub read_seen : v.reliable ≡ true → v.i_seq ≤ v.i_seen_seq

-- Besides, no more is acknowledged than was read, and at most 100 packets await acknowledgement.
pub record IsWellFormed (c : Channel) : Type 0 where
  pub read_side : IsOrdered (view c)
  pub acked : c.i_acked_seq ≤ c.i_seq
  pub window : length c.write_buffer ≤ write_buffer_size
