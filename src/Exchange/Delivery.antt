-- ===== src/Exchange/Delivery.antt =====
-- e3x/exchange.go, `receivedPacket`: the call returns, and what it has done then.
use gogotelehash.Channel.Invariant.Grow.{received_packet_returns}
use gogotelehash.Channel.Types.{Channel, ExchangeI, new_channel}
use gogotelehash.Exchange.{is_open}
use gogotelehash.Exchange.Effect.{Effect, Routes}
use gogotelehash.Exchange.Isolation.{route_packet-Routes, lookup-insert_self}
use gogotelehash.Channel.Deadlines.{kill}
use gogotelehash.Listener.{Refusal}
use gogotelehash.Exchange.Route.{
  Router, Routed, added, caller_of, channel_of, unless_refused, drop_channel, killed, offered,
  deliver, open_with, route_found, route_decrypted, route_decoded, route_packet,
}
use gogotelehash.Lob.Coder
use gogotelehash.Lob.Coder.{decode, decoded, set_buffer}
use gogotelehash.Lob.Packet.{Bytes, Packet, Header}
use gogotelehash.Lob.Parse.{Json}
use gogotelehash.Prelude.Map.{lookup, insert}
use gogotelehash.Prelude.{
  ℕ, ◌+◌, ◌*◌, ◌^◌, ◌≤◌, ◌<◌, ◌≡◌, refl, ◌∙◌, subst, ap, ◌≢◌, not, Option, none, some, [], ◌∷◌,
  arith, ltb, if_intro, ltb→lt, length, drop, length-drop,
}

-- Each number has a channel, whose acknowledged numbers are not at the end of their range.
pub record IsSound (r : Router) : Type 0 where
  pub there :
      (id q : ℕ)
      → lookup id r.exchange.channels ≡ some q
      → (c : Channel) × (lookup q r.channels ≡ some c) × (c.o_acked_seq + 1 < 2 ^ 32)

-- What a channel's loop over acknowledged numbers needs of a packet.
abbrev pub AcksInRange : ℕ → Packet → Type 0
AcksInRange fuel pkt = (pkt.header.ack + 1 < 2 ^ 32) × (pkt.header.ack + 1 < fuel)

decoded-ne-panics : (body : Bytes) (h : Option Header) → decoded body h ≢ Coder.panics
decoded-ne-panics body none e = cc
decoded-ne-panics body (some h) e = cc

-- A message that the pipe has read fits the buffer of a packet.
decode-ne-panics : (j : Json) (msg : Bytes) → length msg ≤ 1500 → decode j msg ≢ Coder.panics
unfolding decode
decode-ne-panics j [] h = λ e. cc
decode-ne-panics j (hi ∷ []) h = λ e. cc
decode-ne-panics j (hi ∷ lo ∷ rest) h =
    let n = hi * 256 + lo in
    if_intro (λ (o : Coder.Outcome Packet). o ≢ Coder.panics) (ltb (length rest) n) (λ _ e. cc)
      (λ _.
        if_intro (λ (o : Coder.Outcome Packet). o ≢ Coder.panics) (ltb 1500 (length (drop n rest)))
          (λ long e. absurd (omega (arith, ltb→lt _ _ long, length-drop n rest)))
          (λ _. decoded-ne-panics (drop n rest) _))

abbrev Returns : Option (Router × Routed) → Type 0
Returns o = (out : Router × Routed) × (o ≡ some out)

deliver_at-Returns :
    (fuel now q : ℕ) (pkt : Packet) (r : Router)
    → AcksInRange fuel pkt
    → ((c : Channel) × (lookup q r.channels ≡ some c) × (c.o_acked_seq + 1 < 2 ^ 32))
    → Returns (deliver fuel now q pkt r)
deliver_at-Returns fuel now q pkt r a (c, there, small) =
    let ((d, o), e) = received_packet_returns fuel now c pkt small a.0 a.1 in
    rw (there, e) (_, refl)

module _ (hn : Bytes) (xi : ExchangeI) (name : Bytes → ℕ) (decrypt : Packet → Option Packet)
    (j : Json) where
  module _ (fuel now p : ℕ) (r : Router) (w : IsSound r) where
    abbrev offered_to : ℕ → Packet → Router
    offered_to l pkt = record (added hn xi name decrypt j p pkt r) {
      listeners =
          (offered l (caller_of hn xi name decrypt j p pkt) (lookup l r.listeners) r.listeners).0;
    }

    kill-acked : (c : Channel) → (kill c).o_acked_seq ≡ c.o_acked_seq
    unfolding kill
    kill-acked c = ground arith

    new-acked : (pkt : Packet) → (channel_of hn xi name decrypt j pkt).o_acked_seq ≡ 0
    unfolding new_channel
    new-acked pkt = refl

    fresh-Returns :
        (l : ℕ) (pkt : Packet) (w : Option Refusal)
        → AcksInRange fuel pkt
        → Returns (deliver fuel now p pkt (unless_refused p pkt.header.c (offered_to l pkt) w))
    fresh-Returns l pkt none a =
        deliver_at-Returns fuel now p pkt (offered_to l pkt) a
          (_, lookup-insert_self p _ r.channels, omega (arith, new-acked pkt))
    fresh-Returns l pkt (some why) a =
        let c = channel_of hn xi name decrypt j pkt in
        let m = insert p c r.channels in
        deliver_at-Returns fuel now p pkt (drop_channel p pkt.header.c (offered_to l pkt)) a (
          kill c,
          ap (λ o. lookup p (killed p o m)) (lookup-insert_self p c r.channels)
              ∙ lookup-insert_self p (kill c) m,
          omega (arith, kill-acked c, new-acked pkt),
        )

    open_with-Returns :
        (pkt : Packet) (o : Option ℕ)
        → AcksInRange fuel pkt
        → Returns (open_with hn xi name decrypt j fuel now p pkt r o)
    open_with-Returns pkt none a = (_, refl)
    open_with-Returns pkt (some l) a = fresh-Returns l pkt _ a

    route_found-Returns :
        (pkt : Packet) (o : Option ℕ)
        → lookup pkt.header.c r.exchange.channels ≡ o
        → AcksInRange fuel pkt
        → Returns (route_found hn xi name decrypt j fuel now p pkt r o)
    route_found-Returns pkt none free a =
        if_intro Returns (not pkt.header.has_type) (λ _. (_, refl)) (λ _. open_with-Returns pkt _ a)
    route_found-Returns pkt (some q) there a =
        deliver_at-Returns fuel now q pkt r a (w.there pkt.header.c q there)

    route_decrypted-Returns :
        (o : Option Packet)
        → ((pkt : Packet) → o ≡ some pkt → AcksInRange fuel pkt)
        → Returns (route_decrypted hn xi name decrypt j fuel now p r o)
    route_decrypted-Returns none a = (_, refl)
    route_decrypted-Returns (some pkt) a =
        if_intro Returns (not pkt.header.has_c) (λ _. (_, refl))
          (λ _. route_found-Returns pkt _ refl (a pkt refl))

    route_decoded-Returns :
        (o : Coder.Outcome Packet)
        → o ≢ Coder.panics
        → ((m pkt : Packet) → decrypt m ≡ some pkt → AcksInRange fuel pkt)
        → Returns (route_decoded hn xi name decrypt j fuel now p r o)
    route_decoded-Returns (Coder.ok m) h a = route_decrypted-Returns (decrypt m) (a m)
    route_decoded-Returns Coder.panics h a = absurd (h refl)
    route_decoded-Returns Coder.invalid_packet h a = (_, refl)
    route_decoded-Returns Coder.encoding_error h a = (_, refl)

-- While each channel number of an exchange has a channel, and acknowledged numbers, those of the
-- channels and of decrypted packets, stay below 2^32 - 1 and the latter below the fuel: a message of at
-- most 1500 bytes is received to the end, however it is decoded and decrypted. One that is dropped
-- changes nothing, and is dropped for the reason that is given. One that is delivered came to an open
-- exchange and holds a packet with a channel number. If that number has a channel, this channel receives
-- the packet. If not, a listener for the packet's type is offered a new channel; one that it takes stands
-- under the number and receives the packet, one that it refuses is broken, has lost the number, and
-- receives the packet nevertheless. No other number is touched, and no other channel moves.
pub route_packet_lem :
    (hn : Bytes) (xi : ExchangeI) (name : Bytes → ℕ) (decrypt : Packet → Option Packet) (j : Json)
    (fuel now p : ℕ) (msg : Bytes) (r : Router)
    → length msg ≤ 1500
    → IsSound r
    → ((m pkt : Packet) → decrypt m ≡ some pkt → AcksInRange fuel pkt)
    → (out : Router × Routed) × (route_packet hn xi name decrypt j fuel now p msg r ≡ some out)
      × Effect hn xi name decrypt j fuel now p msg r out
unfolding route_packet
route_packet_lem hn xi name decrypt j fuel now p msg r short w a =
    let (out, e) : Returns (route_packet hn xi name decrypt j fuel now p msg r) =
      if_intro Returns (not (is_open r.exchange.state)) (λ _. (_, refl))
        (λ _.
          route_decoded-Returns hn xi name decrypt j fuel now p r w (decode j msg)
            (decode-ne-panics j msg short) a) in
    (
      out,
      e,
      subst (Routes hn xi name decrypt j fuel now p msg r) e
          (route_packet-Routes hn xi name decrypt j fuel now p msg r),
    )
