-- ===== src/Exchange/Tests.antt =====
-- e3x/exchange.go: an exchange that is dialed, opened and lost.
use gogotelehash.Lob.Packet.{Bytes, Packet, empty_header}
use gogotelehash.Lob.Parse.{Json}
use gogotelehash.Channel.Types.{Timer, Channel, ExchangeI, new_channel}
use gogotelehash.Exchange.{
  Exchange, initialising, idle, expired, get_next_channel_id, is_local_seq, reset_expire,
}
use gogotelehash.Exchange.Handshakes.{Handshake, received_handshake, apply_handshake, started}
use gogotelehash.Exchange.Laws.{get_next_channel_id_lem}
use gogotelehash.Exchange.Life.{Reach, here, next, receives, Reach-KnowsPeer, KnowsPeer}
use gogotelehash.Exchange.Route.{Router, Routed, route_packet}
use gogotelehash.Exchange.Effect.{Effect}
use gogotelehash.Exchange.Delivery.{IsSound, AcksInRange, route_packet_lem}
use gogotelehash.Channel.Receive.{received_packet}
use gogotelehash.Listener.{new_listener, handle}
use gogotelehash.Listener.Registry
use gogotelehash.Listener.Registry.{new_listener_set}
use gogotelehash.Lob.Coder.{decode}
use gogotelehash.Prelude.Map.{lookup}
use gogotelehash.Prelude.{
  ℕ, ◌≡◌, refl, arith, ◌%◌, sym, ◌≢◌, true, false, Option, none, some, [], ◌∷◌, ◌+◌, ◌^◌, ◌<◌, List,
}
use mathlib.Core.Bool.{true≢false}

abbrev json : Json
json = record { unmarshal = λ b. none; encode = λ v. none }

abbrev encrypt : ℕ → Option Bytes
encrypt n = some (n % 256 ∷ [])

abbrev first_exchange : Exchange
first_exchange = record {
  state = initialising;
  last_local_seq = 0;
  last_remote_seq = 7;
  next_seq = 0;
  known = false;
  csid = 26;
  high = true;
  next_channel_id = 0;
  channels = [];
  next_handshake = 0;
  t_expire = Timer.stopped;
  t_break = Timer.stopped;
  t_deliver_handshake = Timer.stopped;
}

abbrev other_side : Exchange
other_side = record first_exchange { high = false }

get_next_channel_id_lem_example :
    ((get_next_channel_id first_exchange).1 ≢ (get_next_channel_id other_side).1)
    × ((get_next_channel_id first_exchange).1 ≢ 0)
    × ((get_next_channel_id other_side).1 ≢ 0)
    × ((get_next_channel_id other_side).0.next_channel_id % 2 ≡ 0)
get_next_channel_id_lem_example =
    get_next_channel_id_lem first_exchange other_side (omega arith) (omega arith) refl refl refl

abbrev lost : Exchange
lost = record first_exchange { state = expired }

-- A handshake comes after the exchange has expired.
abbrev late : Handshake
late = record { at = 11; csid = 26; accepted = true; identity = true; high = true }

abbrev lost_run : Reach json encrypt lost (received_handshake json encrypt 5 late lost)
lost_run = next here (receives 5 late)

first-Reach :
    Reach json encrypt first_exchange (received_handshake json encrypt 5 late first_exchange)
first-Reach = next here (receives 5 late)

Reach-KnowsPeer_example : KnowsPeer (received_handshake json encrypt 5 late first_exchange)
Reach-KnowsPeer_example =
    Reach-KnowsPeer json encrypt (λ o. absurd (true≢false (sym o))) first-Reach

-- The handshake opens the exchange.
first_opens : (received_handshake json encrypt 5 late first_exchange).state ≡ idle
unfolding received_handshake apply_handshake is_local_seq started reset_expire
first_opens = refl

-- An exchange with one channel, number 2, and a listener for the channels of type "a".
abbrev served : Channel
served =
    record (new_channel [] (97 ∷ []) true true (record { deliver_packet = λ log pkt dst. none })) {
      id = 2;
    }

abbrev router : Router
router = record {
  exchange = record first_exchange { state = idle; channels = (2, 20) ∷ [] };
  channels = (20, served) ∷ [];
  listeners = (5, new_listener 97 true 0) ∷ [];
  sets = record new_listener_set { listeners = (97, 5) ∷ [] } ∷ [];
}

abbrev opening : ℕ → Packet
opening n = record {
  header = record empty_header {
    c = n;
    has_c = true;
    type = 97 ∷ [];
    has_type = true;
    seq = 1;
    has_seq = true;
  };
  body = 9 ∷ [];
}

abbrev first_byte : Bytes → ℕ
first_byte [] = 0
first_byte (b ∷ rest) = b

-- The body of the outer packet says for which channel the inner one is.
abbrev reveal : Packet → Option Packet
reveal m = some (opening (first_byte m.body))

abbrev listening : ExchangeI
listening = record { deliver_packet = λ log pkt dst. none }

served-there :
    (id q : ℕ)
    → lookup id router.exchange.channels ≡ some q
    → (c : Channel) × (lookup q router.channels ≡ some c) × (c.o_acked_seq + 1 < 2 ^ 32)
unfolding new_channel
served-there id q h = (served, ground arith, omega arith)

router-IsSound : IsSound router
router-IsSound = record { there = served-there }

reveal-AcksInRange : (m pkt : Packet) → reveal m ≡ some pkt → AcksInRange 9 pkt
reveal-AcksInRange m pkt h =
    let same : (opening (first_byte m.body)).header.ack ≡ pkt.header.ack = ground arith in
    (omega (arith, same), omega (arith, same))

abbrev for_new_channel : Bytes
for_new_channel = 0 ∷ 0 ∷ 4 ∷ []

route_packet_lem_example :
    (out : Router × Routed) × (route_packet [] listening first_byte reveal json 9 0 21
        for_new_channel router
      ≡ some out)
    × Effect [] listening first_byte reveal json 9 0 21 for_new_channel router out
route_packet_lem_example =
    route_packet_lem [] listening first_byte reveal json 9 0 21 for_new_channel router (omega arith)
      router-IsSound reveal-AcksInRange

-- The packet for number 4 opened a channel, which the listener has in its queue.
abbrev channels_of : Option (Router × Routed) → List (ℕ × ℕ)
channels_of none = []
channels_of (some (r, out)) = r.exchange.channels

opens_four :
    channels_of (route_packet [] listening first_byte reveal json 9 0 21 for_new_channel router)
    ≡ (2, 20) ∷ (4, 21) ∷ []
unfolding route_packet decode received_packet Registry.get reset_expire new_channel handle
    new_listener
opens_four = refl
