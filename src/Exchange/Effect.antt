-- ===== src/Exchange/Effect.antt =====
-- e3x/exchange.go, `receivedPacket`: what it means that a message is dropped or reaches its channel.
use gogotelehash.Channel.Deadlines.{kill}
use gogotelehash.Channel.Receive.{received_packet}
use gogotelehash.Channel.Receive as Receive
use gogotelehash.Channel.Types.{Channel, ExchangeI}
use gogotelehash.Exchange.{is_open}
use gogotelehash.Exchange.Route.{
  Router, Routed, DropReason, exchange_is_not_open, invalid_lob_packet, decryption_failed,
  missing_channel_id, missing_channel_type, missing_channel_handler, dropped, delivered, offered,
  caller_of, channel_of,
}
use gogotelehash.Listener.{Listener, Refusal}
use gogotelehash.Listener.Registry
use gogotelehash.Lob.Coder
use gogotelehash.Lob.Coder.{decode}
use gogotelehash.Lob.Packet.{Bytes, Packet}
use gogotelehash.Lob.Parse.{Json}
use gogotelehash.Prelude.Map.{lookup}
use gogotelehash.Prelude.{ℕ, ◌≡◌, ◌≢◌, ◌⊎◌, true, false, Option, none, some, List}

-- The channel that the pointer `q` has afterwards is `c` with the packet received, and the answer is that
-- of its `receivedPacket`.
pub record Receives (fuel now q : ℕ) (c : Channel) (pkt : Packet) (s : Router) (o : Receive.Outcome)
    : Type 0 where
  pub after : Channel
  pub received : received_packet fuel now c pkt ≡ some (after, o)
  pub there : lookup q s.channels ≡ some after

-- Only the number `id` and the channel of the pointer `q` may be touched.
pub record Isolated (id q : ℕ) (r s : Router) : Type 0 where
  pub table : (k : ℕ) → k ≢ id → lookup k s.exchange.channels ≡ lookup k r.exchange.channels
  pub others : (k : ℕ) → k ≢ q → lookup k s.channels ≡ lookup k r.channels

-- The packet's number has a channel, which receives the packet, and all else stays.
pub record Known (fuel now : ℕ) (pkt : Packet) (r s : Router) (o : Receive.Outcome) : Type 0 where
  pub pointer : ℕ
  pub numbered : lookup pkt.header.c r.exchange.channels ≡ some pointer
  pub channel : Channel
  pub was_there : lookup pointer r.channels ≡ some channel
  pub receives : Receives fuel now pointer channel pkt s o
  pub isolated : Isolated pkt.header.c pointer r s
  pub same_exchange : s.exchange ≡ r.exchange
  pub same_listeners : s.listeners ≡ r.listeners

module _ (hn : Bytes) (xi : ExchangeI) (name : Bytes → ℕ) (decrypt : Packet → Option Packet)
    (j : Json) (fuel now p : ℕ) where
  -- The answer of the listener `l` to the channel that the packet opens.
  abbrev pub offer : ℕ → Packet → Router → List (ℕ × Listener) × Option Refusal
  offer l pkt r =
      offered l (caller_of hn xi name decrypt j p pkt) (lookup l r.listeners) r.listeners

  abbrev pub new_of : Packet → Channel
  new_of pkt = channel_of hn xi name decrypt j pkt

  -- What the listener takes stands under the number of the packet and receives it; what it refuses is
  -- broken, has no number, and receives it nevertheless.
  abbrev pub Answered : Packet → Router → Receive.Outcome → Option Refusal → Type 0
  Answered pkt s o none =
      (lookup pkt.header.c s.exchange.channels ≡ some p) × Receives fuel now p (new_of pkt) pkt s o
  Answered pkt s o (some why) =
      (lookup pkt.header.c s.exchange.channels ≡ none)
      × Receives fuel now p (kill (new_of pkt)) pkt s o

  -- The packet's number has no channel; there is a listener for the packet's type, which is offered a new
  -- one, with the pointer `p`.
  pub record Fresh (pkt : Packet) (r s : Router) (o : Receive.Outcome) : Type 0 where
    pub free : lookup pkt.header.c r.exchange.channels ≡ none
    pub has_type : pkt.header.has_type ≡ true
    pub listener : ℕ
    pub found : Registry.get (name pkt.header.type) r.sets ≡ some listener
    pub listeners : s.listeners ≡ (offer listener pkt r).0
    pub answered : Answered pkt s o (offer listener pkt r).1
    pub isolated : Isolated pkt.header.c p r s

  -- The message holds a packet, which is that of a channel.
  pub record Holds (msg : Bytes) (pkt : Packet) : Type 0 where
    pub outer : Packet
    pub read : decode j msg ≡ Coder.ok outer
    pub decrypted : decrypt outer ≡ some pkt
    pub has_id : pkt.header.has_c ≡ true

  -- Why a message is dropped.
  abbrev pub Because : DropReason → Bytes → Router → Type 0
  Because exchange_is_not_open msg r = is_open r.exchange.state ≡ false
  Because invalid_lob_packet msg r = (m : Packet) → decode j msg ≢ Coder.ok m
  Because decryption_failed msg r = (m : Packet) × (decode j msg ≡ Coder.ok m) × (decrypt m ≡ none)
  Because missing_channel_id msg r =
      (m : Packet) × (pkt : Packet) × (decode j msg ≡ Coder.ok m)
      × (decrypt m ≡ some pkt)
      × (pkt.header.has_c ≡ false)
  Because missing_channel_type msg r =
      (pkt : Packet) × Holds msg pkt
      × (lookup pkt.header.c r.exchange.channels ≡ none)
      × (pkt.header.has_type ≡ false)
  Because missing_channel_handler msg r =
      (pkt : Packet) × Holds msg pkt
      × (lookup pkt.header.c r.exchange.channels ≡ none)
      × (Registry.get (name pkt.header.type) r.sets ≡ none)

  abbrev pub Effect : Bytes → Router → Router × Routed → Type 0
  Effect msg r (s, dropped why) = (s ≡ r) × Because why msg r
  Effect msg r (s, delivered o) =
      (is_open r.exchange.state ≡ true)
      × ((pkt : Packet) × Holds msg pkt × (Known fuel now pkt r s o ⊎ Fresh pkt r s o))

  abbrev pub Routes : Bytes → Router → Option (Router × Routed) → Type 0
  Routes msg r none = Unit
  Routes msg r (some out) = Effect msg r out
