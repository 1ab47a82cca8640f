-- ===== src/Exchange.antt =====
-- e3x/exchange.go: the state of an exchange, its numbers, and the calls that move it. The address
-- book, the hooks and the stored error are left out. A function is a critical section under `x.mtx`.
pub mod Handshakes
pub mod Laws
pub mod Life
pub mod Route
pub mod Effect
pub mod Isolation
pub mod Delivery
pub mod Pipe
pub mod Tests
use gogotelehash.Lob.Packet.{Bytes, Packet, empty_header}
use gogotelehash.Lob.Parse.{Json}
use gogotelehash.Lob.Coder.{encode}
use gogotelehash.Lob.Coder
use gogotelehash.Channel.Types.{Timer, running, stopped, second, u32}
use gogotelehash.Prelude.Map.{lookup, insert, erase}
use gogotelehash.Prelude.{
  ℕ, Bool, true, false, not, Option, none, some, List, [], ◌∷◌, ltb, length, if◌then◌else◌, ◌==◌,
  ◌+◌, ◌%◌, ◌*◌, zero, ◌-◌, ◌/◌, ◌<◌, ap, ◌++◌, map, ◌&&◌, ◌||◌, take, ◌∷◌, ltb,
}

pub data ExchangeState : Type 0 where
  initialising dialing idle active expired broken : ExchangeState

abbrev pub is_open : ExchangeState → Bool
is_open idle = true
is_open active = true
is_open _ = false

abbrev pub is_closed : ExchangeState → Bool
is_closed expired = true
is_closed broken = true
is_closed _ = false

-- `known` is `remoteIdent != nil`, `high` is `cipher.IsHigh()`. The channel set holds its own lock only
-- within each of its calls here, so that `channels` is its map.
pub record Exchange : Type 0 where
  pub state : ExchangeState
  pub last_local_seq : ℕ
  pub last_remote_seq : ℕ
  pub next_seq : ℕ
  pub known : Bool
  pub csid : ℕ
  pub high : Bool
  pub next_channel_id : ℕ
  pub channels : List (ℕ × ℕ)
  pub next_handshake : ℕ
  pub t_expire : Timer
  pub t_break : Timer
  pub t_deliver_handshake : Timer

-- The parity that the side must use: `if seq%2 == 0 { seq++ }` on the high side, `== 1` on the other.
abbrev pub right_parity : Bool → ℕ → ℕ
right_parity true n = if n % 2 == 0 then u32 (n + 1) else n
right_parity false n = if n % 2 == 1 then u32 (n + 1) else n

-- `if seq < n { seq = n }`
abbrev pub at_least : ℕ → ℕ → ℕ
at_least n seq = if ltb seq n then n else seq

-- `if seq < last { seq = last + 1 }`
abbrev pub behind : ℕ → ℕ → ℕ
behind last seq = if ltb seq last then u32 (last + 1) else seq

abbrev pub not_zero : ℕ → ℕ
not_zero n = if n == 0 then 1 else n

-- `getNextSeq` at the time `now`, in seconds.
unfoldable pub get_next_seq : ℕ → Exchange → Exchange × ℕ
get_next_seq now x =
    let seq = right_parity x.high (
      not_zero
        (behind x.last_remote_seq (behind x.last_local_seq (at_least (u32 now) x.next_seq)))) in
    (record x { next_seq = u32 (seq + 2) }, seq)

unfoldable pub is_local_seq : Exchange → ℕ → Bool
is_local_seq x seq = if x.high then seq % 2 == 1 else seq % 2 == 0

unfoldable pub get_next_channel_id : Exchange → Exchange × ℕ
get_next_channel_id x =
    let id = right_parity x.high (not_zero x.next_channel_id) in
    (record x { next_channel_id = u32 (id + 2) }, id)

abbrev pub is_idle : Exchange → Bool
is_idle x = not (ltb 0 (length x.channels))

abbrev pub open_state : Bool → ExchangeState
open_state true = idle
open_state false = active

unfoldable pub reset_expire : Exchange → Exchange
reset_expire x =
    let t : Timer =
      if not (is_idle x)
      then stopped
      else if is_open x.state
      then running (2 * 60 * second)
      else x.t_expire in
    if is_open x.state
    then record x { state = open_state (is_idle x); t_expire = t }
    else record x { t_expire = t }

abbrev pub reset_break : Exchange → Exchange
reset_break x = record x { t_break = running (2 * 60 * second) }

-- `expire`, up to the unlock; the flag is `err != nil`.
unfoldable pub expire : Bool → Exchange → Exchange
expire failed x = if is_closed x.state then x else record x {
  state = if failed then broken else expired;
  t_expire = stopped;
  t_break = stopped;
  t_deliver_handshake = stopped;
}

unfoldable pub on_expire : Exchange → Exchange
unfolding expire
on_expire x = expire false x

unfoldable pub on_break : Exchange → Exchange
unfolding expire
on_break x = expire true x

-- `unregisterChannel`: the removal is before the lock, so it is a step of its own.
unfoldable pub remove_channel : ℕ → Exchange → Exchange
remove_channel id x = record x { channels = erase id x.channels }

-- The end of the promise that `receivedPacket` keeps: the new channel, under its number.
abbrev pub take_channel : ℕ → ℕ → Exchange → Exchange
take_channel id c x = reset_expire (record x { channels = insert id c x.channels })

-- `exchange.state = ExchangeDialing` in `accept` of the endpoint.
abbrev pub mark_dialing : Exchange → Exchange
mark_dialing x = record x { state = dialing }

-- What a call that waits for the end of dialing answers.
pub data Answer {ℓ} (A : Type ℓ) : Type ℓ where
  waits broken_exchange : Answer A
  answer : A → Answer A

-- `Open` of an exchange that is open: the channel gets its number, and is put under it if the number
-- is free.
unfoldable pub add_channel : ℕ → Exchange → Exchange × ℕ
add_channel c x =
    let (y, id) = get_next_channel_id x in
    let m : List (ℕ × ℕ) = elim (lookup id y.channels) [
      | none ↦ insert id c y.channels
      | some d ↦ y.channels
    ] in
    (reset_expire (record y { channels = m }), id)

-- `Open` under the lock.
abbrev pub open_from : ExchangeState → ℕ → Exchange → Answer (Exchange × ℕ)
open_from dialing c x = waits
open_from idle c x = answer (add_channel c x)
open_from active c x = answer (add_channel c x)
open_from initialising c x = broken_exchange
open_from expired c x = broken_exchange
open_from broken c x = broken_exchange

unfoldable pub open_channel : ℕ → Exchange → Answer (Exchange × ℕ)
open_channel c x = open_from x.state c x
