-- ===== src/Channel/Types.antt =====
-- e3x/channel.go: the channel's state. A critical section of the code is a function on `Channel`:
-- what it does to the world (calls of the exchange, signals, hooks) is added to the front of `log`.
-- Sequence numbers are uint32 and wrap at 2 ^ 32. Times are nanoseconds, the zero time is 0.
use gogotelehash.Prelude.{
  ℕ, ◌+◌, ◌-◌, ◌*◌, ◌%◌, ◌^◌, if◌then◌else◌, Bool, false, List, [], ◌∷◌, Option,
}
use gogotelehash.Lob.Packet.{Bytes, Packet}

abbrev pub u32 : ℕ → ℕ
u32 n = n % 2 ^ 32

-- `a - b` on uint32.
abbrev pub sub32 : ℕ → ℕ → ℕ
sub32 a b = (a + 2 ^ 32 - b) % 2 ^ 32

abbrev pub read_buffer_size : ℕ
read_buffer_size = 100

abbrev pub write_buffer_size : ℕ
write_buffer_size = 100

abbrev pub early_ad_hoc_ack : ℕ
early_ad_hoc_ack = 50

abbrev pub blank_seq : ℕ
blank_seq = 0

abbrev pub initial_seq : ℕ
initial_seq = 1

abbrev pub second : ℕ
second = 1_000_000_000

-- The errors that channel operations return. `transport` stands for those of the exchange.
pub data Error : Type 0 where
  invalid timeout eof short_buffer : Error
  broken_channel : Bytes → Bytes → ℕ → Error
  transport : ℕ → Error

-- The three condition variables.
pub data Cond : Type 0 where
  read write close : Cond

-- A pipe is known by its identity; `none` is the nil pipe.
pub data Effect : Type 0 where
  deliver : Packet → Option ℕ → Effect
  signal broadcast : Cond → Effect
  free : Packet → Effect
  closed : Effect

-- A `*time.Timer`: nil, stopped, or running with its duration.
pub data Timer : Type 0 where
  nil stopped : Timer
  running : ℕ → Timer

-- `exchangeI`: whether `deliverPacket` fails may depend on all that happened before.
pub record ExchangeI : Type 0 where
  pub deliver_packet : List Effect → Packet → Option ℕ → Option Error

pub record ReadBufferEntry : Type 0 where
  pub pkt : Packet
  pub seq : ℕ
  pub end : Bool

pub record WriteBufferEntry : Type 0 where
  pub pkt : Packet
  pub end : Bool
  pub last_resend : ℕ
  pub dst : Option ℕ

pub record Channel : Type 0 where
  pub x : ExchangeI
  pub serverside : Bool
  pub id : ℕ
  pub typ : Bytes
  pub hashname : Bytes
  pub reliable : Bool
  pub broken : Bool
  pub o_seq : ℕ
  pub i_buffered_seq : ℕ
  pub i_seen_seq : ℕ
  pub i_seq : ℕ
  pub o_acked_seq : ℕ
  pub i_acked_seq : ℕ
  pub delivered_end : Bool
  pub received_end : Bool
  pub read_end : Bool
  pub needs_resend : Bool
  pub open_deadline_reached : Bool
  pub write_deadline_reached : Bool
  pub read_deadline_reached : Bool
  pub close_deadline_reached : Bool
  pub read_buffer : List ReadBufferEntry
  pub write_buffer : List (ℕ × WriteBufferEntry)
  pub t_open_deadline : Timer
  pub t_close_deadline : Timer
  pub t_read_deadline : Timer
  pub t_write_deadline : Timer
  pub t_resend : Timer
  pub t_acker : Timer
  pub log : List Effect

abbrev pub emit : Effect → Channel → Channel
emit e c = record c { log = e ∷ c.log }

-- `timer.Stop()`, which the code calls only on a timer that is not nil.
abbrev pub stop : Timer → Timer
stop nil = nil
stop stopped = stopped
stop (running d) = stopped

abbrev pub broken_error : Channel → Error
broken_error c = broken_channel c.hashname c.typ c.id

-- `newChannel` without its options: they set the hooks, or fields that their callers name.
unfoldable pub new_channel : Bytes → Bytes → Bool → Bool → ExchangeI → Channel
new_channel hn typ reliable serverside x = record {
  x = x;
  serverside = serverside;
  id = 0;
  typ = typ;
  hashname = hn;
  reliable = reliable;
  broken = false;
  o_seq = blank_seq;
  i_buffered_seq = blank_seq;
  i_seen_seq = blank_seq;
  i_seq = blank_seq;
  o_acked_seq = blank_seq;
  i_acked_seq = blank_seq;
  delivered_end = false;
  received_end = false;
  read_end = false;
  needs_resend = false;
  open_deadline_reached = false;
  write_deadline_reached = false;
  read_deadline_reached = false;
  close_deadline_reached = false;
  read_buffer = [];
  write_buffer = [];
  t_open_deadline = running (60 * second);
  t_close_deadline = nil;
  t_read_deadline = stopped;
  t_write_deadline = stopped;
  t_resend = if reliable then running second else nil;
  t_acker = if reliable then running (10 * second) else nil;
  log = [];
}
