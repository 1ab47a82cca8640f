-- ===== src/Exchange/Route.antt =====
-- e3x/exchange.go, `receivedPacket`: how a message finds its channel. The table of channels stays locked
-- from the look at it to the promise that is kept; the offer to the listener and the delivery, which come
-- behind, are taken as one step with it. A channel and a listener are known by their pointers; the
-- cipher's decryption is a parameter.
use gogotelehash.Channel.Receive.{received_packet}
use gogotelehash.Channel.Receive as Receive
use gogotelehash.Channel.Types.{Channel, ExchangeI, new_channel}
use gogotelehash.Channel.Deadlines.{kill}
use gogotelehash.Exchange.{Exchange, is_open, reset_expire, remove_channel, take_channel}
use gogotelehash.Listener.{Caller, Listener, Refusal, handle}
use gogotelehash.Listener.Registry.{ListenerSet}
use gogotelehash.Listener.Registry
use gogotelehash.Lob.Coder.{decode}
use gogotelehash.Lob.Coder
use gogotelehash.Lob.Packet.{Bytes, Packet}
use gogotelehash.Lob.Parse.{Json}
use gogotelehash.Prelude.Map.{lookup, insert}
use gogotelehash.Prelude.{ℕ, true, not, Option, none, some, List, if◌then◌else◌}

pub record Router : Type 0 where
  pub exchange : Exchange
  pub channels : List (ℕ × Channel)
  pub listeners : List (ℕ × Listener)
  pub sets : List ListenerSet

pub data DropReason : Type 0 where
  exchange_is_not_open invalid_lob_packet decryption_failed missing_channel_id : DropReason
  missing_channel_type missing_channel_handler : DropReason

pub data Routed : Type 0 where
  dropped : DropReason → Routed
  delivered : Receive.Outcome → Routed

-- The pointer's channel and what its `receivedPacket` answers.
abbrev pub delivered_to : ℕ → Router → Option (Channel × Receive.Outcome) → Option (Router × Routed)
delivered_to p r none = none
delivered_to p r (some (d, o)) = some (record r { channels = insert p d r.channels }, delivered o)

-- `none` is a call that does not return; a pointer always has a channel.
abbrev pub deliver_at : ℕ → ℕ → ℕ → Packet → Router → Option Channel → Option (Router × Routed)
deliver_at fuel now p pkt r none = none
deliver_at fuel now p pkt r (some c) = delivered_to p r (received_packet fuel now c pkt)

abbrev pub deliver : ℕ → ℕ → ℕ → Packet → Router → Option (Router × Routed)
deliver fuel now p pkt r = deliver_at fuel now p pkt r (lookup p r.channels)

-- `listener.handle(c)`: the listeners, and the refusal for which the channel is dropped.
abbrev pub offered :
    ℕ → Caller → Option Listener → List (ℕ × Listener) → List (ℕ × Listener) × Option Refusal
offered l c none m = (m, none)
offered l c (some listener) m = let h = handle c listener in (insert l h.0 m, h.1)

-- `Kill` of the channel that the pointer `p` has.
abbrev pub killed : ℕ → Option Channel → List (ℕ × Channel) → List (ℕ × Channel)
killed p none m = m
killed p (some c) m = insert p (kill c) m

-- What the endpoint's set of listeners does with a channel that is refused: `Kill` breaks it, and its hook
-- `unregisterChannel` takes it from the table.
abbrev pub drop_channel : ℕ → ℕ → Router → Router
drop_channel p id r = record r {
  exchange = reset_expire (remove_channel id r.exchange);
  channels = killed p (lookup p r.channels) r.channels;
}

abbrev pub unless_refused : ℕ → ℕ → Router → Option Refusal → Router
unless_refused p id r none = r
unless_refused p id r (some why) = drop_channel p id r

module _ (hn : Bytes) (xi : ExchangeI) (name : Bytes → ℕ) (decrypt : Packet → Option Packet)
    (j : Json) where
  -- The new channel of a packet, as the listener sees it, and itself.
  abbrev pub caller_of : ℕ → Packet → Caller
  caller_of p pkt = record { id = p; typ = name pkt.header.type; reliable = pkt.header.has_seq }

  abbrev pub channel_of : Packet → Channel
  channel_of pkt = record (new_channel hn pkt.header.type pkt.header.has_seq true xi) {
    id = pkt.header.c;
  }

  -- The new channel, under the pointer `p` and the packet's number, before a listener has it.
  abbrev pub added : ℕ → Packet → Router → Router
  added p pkt r = record r {
    exchange = take_channel pkt.header.c p r.exchange;
    channels = insert p (channel_of pkt) r.channels;
  }

  -- The new channel before the packet reaches it.
  abbrev pub opened : ℕ → ℕ → Packet → Router → Router
  opened p l pkt r =
      let o = offered l (caller_of p pkt) (lookup l r.listeners) r.listeners in
      unless_refused p pkt.header.c (record (added p pkt r) { listeners = o.0 }) o.1

  abbrev pub open_with : ℕ → ℕ → ℕ → Packet → Router → Option ℕ → Option (Router × Routed)
  open_with fuel now p pkt r none = some (r, dropped missing_channel_handler)
  open_with fuel now p pkt r (some l) = deliver fuel now p pkt (opened p l pkt r)

  abbrev pub route_found : ℕ → ℕ → ℕ → Packet → Router → Option ℕ → Option (Router × Routed)
  route_found fuel now p pkt r (some q) = deliver fuel now q pkt r
  route_found fuel now p pkt r none =
      if not pkt.header.has_type
      then some (r, dropped missing_channel_type)
      else open_with fuel now p pkt r (Registry.get (name pkt.header.type) r.sets)

  abbrev pub route_decrypted : ℕ → ℕ → ℕ → Router → Option Packet → Option (Router × Routed)
  route_decrypted fuel now p r none = some (r, dropped decryption_failed)
  route_decrypted fuel now p r (some pkt) =
      if not pkt.header.has_c
      then some (r, dropped missing_channel_id)
      else route_found fuel now p pkt r (lookup pkt.header.c r.exchange.channels)

  abbrev pub route_decoded : ℕ → ℕ → ℕ → Router → Coder.Outcome Packet → Option (Router × Routed)
  route_decoded fuel now p r (Coder.ok pkt) = route_decrypted fuel now p r (decrypt pkt)
  route_decoded fuel now p r Coder.panics = none
  route_decoded fuel now p r Coder.invalid_packet = some (r, dropped invalid_lob_packet)
  route_decoded fuel now p r Coder.encoding_error = some (r, dropped invalid_lob_packet)

  unfoldable pub route_packet : ℕ → ℕ → ℕ → Bytes → Router → Option (Router × Routed)
  route_packet fuel now p msg r =
      if not (is_open r.exchange.state)
      then some (r, dropped exchange_is_not_open)
      else route_decoded fuel now p r (decode j msg)
