-- ===== src/Listener.antt =====
-- e3x/listener.go: listeners and the sets that they are found in. A channel type stands for its text,
-- and a listener in a set for its pointer, both as numbers; a function is a critical section.
pub mod Registry
pub mod Laws
pub mod Tests
use gogotelehash.Prelude.{
  ℕ, Bool, true, false, not, Option, none, some, List, [], ◌∷◌, ◌++◌, ltb, leb, length,
  if◌then◌else◌, ◌==◌, ◌+◌, ◌-◌, ◌&&◌, ◌||◌, map, zero, ◌/◌, ap, take, drop,
}

-- `defaultBacklogSize`
abbrev pub default_backlog_size : ℕ
default_backlog_size = 512

-- What a listener looks at of a `Channel`.
pub record Caller : Type 0 where
  pub id : ℕ
  pub typ : ℕ
  pub reliable : Bool

pub data Refusal : Type 0 where
  listener_closed listener_backlog_too_large listener_invalid_type : Refusal

-- `elem.Value` is never nil here, since `handle` alone fills the queue.
pub record Listener : Type 0 where
  pub channel_type : ℕ
  pub reliable : Bool
  pub closed : Bool
  pub max_backlog_size : ℕ
  pub backlog_size : ℕ
  pub queue : List Caller

-- `newListener`; the size may be given as 0, and is no negative number here.
unfoldable pub new_listener : ℕ → Bool → ℕ → Listener
new_listener typ reliable max = record {
  channel_type = typ;
  reliable = reliable;
  closed = false;
  max_backlog_size = if max == 0 then default_backlog_size else max;
  backlog_size = 0;
  queue = [];
}

abbrev pub bool_eq : Bool → Bool → Bool
bool_eq true b = b
bool_eq false b = not b

-- `handle`; a refusal is what `set.dropChannel` is called with.
unfoldable pub handle : Caller → Listener → Listener × Option Refusal
handle c l =
    if l.closed
    then (l, some listener_closed)
    else if ltb 0 l.max_backlog_size && leb l.max_backlog_size l.backlog_size
    then (l, some listener_backlog_too_large)
    else if not (bool_eq c.reliable l.reliable) || not (c.typ == l.channel_type)
    then (l, some listener_invalid_type)
    else (record l { queue = l.queue ++ c ∷ []; backlog_size = l.backlog_size + 1 }, none)

-- How a call of `AcceptChannel` ends from its last wait on: it waits again, answers EOF or a channel;
-- or it goes round for ever, with a size above zero and nothing in the queue.
pub data Accepts : Type 0 where
  waits spins eof : Accepts
  accepted : Listener → Caller → Accepts

abbrev pub front : List Caller → Listener → Accepts
front [] l = spins
front (c ∷ rest) l = accepted (record l { queue = rest; backlog_size = l.backlog_size - 1 }) c

unfoldable pub accept_channel : Listener → Accepts
accept_channel l =
    if not l.closed && (l.backlog_size == 0)
    then waits
    else if l.closed
    then eof
    else front l.queue l

-- `Close`: the listener, whether it takes itself out of its set, and the channels that it drops.
unfoldable pub close : Listener → Listener × Bool × List Caller
close l = if l.closed then (l, false, []) else (record l { closed = true }, true, l.queue)
