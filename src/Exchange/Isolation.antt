-- ===== src/Exchange/Isolation.antt =====
-- e3x/exchange.go, `receivedPacket`: what a message does, to its channel and to the others.
use gogotelehash.Channel.Deadlines.{kill}
use gogotelehash.Channel.Receive.{received_packet}
use gogotelehash.Channel.Receive as Receive
use gogotelehash.Channel.Types.{Channel, ExchangeI}
use gogotelehash.Exchange.{Exchange, is_open, reset_expire, remove_channel}
use gogotelehash.Exchange.Route.{
  Router, Routed, delivered_to, deliver_at, unless_refused, added, open_with, route_found,
  route_decrypted, route_decoded, route_packet, killed,
}
use gogotelehash.Listener.{Refusal}
use gogotelehash.Listener.Registry
use gogotelehash.Lob.Coder
use gogotelehash.Lob.Coder.{decode}
use gogotelehash.Lob.Packet.{Bytes, Packet}
use gogotelehash.Lob.Parse.{Json}
use gogotelehash.Prelude.Map.{lookup, insert, lookup-insert, lookup-erase}
use gogotelehash.Prelude.{
  ℕ, ◌≡◌, refl, sym, ap, ◌∙◌, ◌≢◌, inl, inr, true, false, not, Option, none, some, arith, ◌==◌,
  if_intro, ==_iff, Bool-cases, if◌then◌else◌, List, subst,
}
use gogotelehash.Exchange.Effect.{Receives, Isolated, Holds, Routes, Answered, offer, new_of}

reset_expire-channels : (x : Exchange) → (reset_expire x).channels ≡ x.channels
unfolding reset_expire
reset_expire-channels x = ground arith

ne→apart : (a b : ℕ) → a ≢ b → (b == a) ≡ false
ne→apart a b h = elim (Bool-cases (b == a)) [
  | inl same ↦ absurd (h (sym ((==_iff b a).0 same)))
  | inr apart ↦ apart
]

pub lookup-insert_self :
    {V : Type 0} (p : ℕ) (c : V) (m : List (ℕ × V)) → lookup p (insert p c m) ≡ some c
lookup-insert_self p c m = lookup-insert p p c m ∙ rw ((==_iff p p).1 refl) refl

lookup-insert_other :
    {V : Type 0} (p q : ℕ) (c : V) (m : List (ℕ × V)) → q ≢ p → lookup q (insert p c m) ≡ lookup q m
lookup-insert_other p q c m other = lookup-insert p q c m ∙ rw (ne→apart q p other) refl

module _ (hn : Bytes) (xi : ExchangeI) (name : Bytes → ℕ) (decrypt : Packet → Option Packet)
    (j : Json) (fuel now p : ℕ) (msg : Bytes) (r : Router)
    (up : is_open r.exchange.state ≡ true) where
  abbrev Goes : Option (Router × Routed) → Type 0
  Goes o = Routes hn xi name decrypt j fuel now p msg r o

  module _ (pkt : Packet) (holds : Holds hn xi name decrypt j fuel now p msg pkt) where
    known_to-Routes :
        (q : ℕ) (c : Channel) (o : Option (Channel × Receive.Outcome))
        → lookup pkt.header.c r.exchange.channels ≡ some q
        → lookup q r.channels ≡ some c
        → received_packet fuel now c pkt ≡ o
        → Goes (delivered_to q r o)
    known_to-Routes q c none n there e = tt
    known_to-Routes q c (some (d, o)) n there e = (
      up,
      (
        pkt,
        holds,
        inl (record {
          pointer = q;
          numbered = n;
          channel = c;
          was_there = there;
          receives = record { after = d; received = e; there = lookup-insert_self q d r.channels };
          isolated = record {
            table = λ k other. refl;
            others = λ k other. lookup-insert_other q k d r.channels other;
          };
          same_exchange = refl;
          same_listeners = refl;
        }),
      ),
    )

    known_at-Routes :
        (q : ℕ) (o : Option Channel)
        → lookup pkt.header.c r.exchange.channels ≡ some q
        → lookup q r.channels ≡ o
        → Goes (deliver_at fuel now q pkt r o)
    known_at-Routes q none n there = tt
    known_at-Routes q (some c) n there = known_to-Routes q c _ n there refl

    module _ (free : lookup pkt.header.c r.exchange.channels ≡ none)
        (has_type : pkt.header.has_type ≡ true) (l : ℕ)
        (found : Registry.get (name pkt.header.type) r.sets ≡ some l) where
      abbrev answer : Option Refusal
      answer = (offer hn xi name decrypt j fuel now p l pkt r).1

      -- The router `t`, in which the pointer `p` has the channel `c`.
      fresh_to-Routes :
          (t : Router) (c : Channel) (o : Option (Channel × Receive.Outcome))
          → Isolated pkt.header.c p r t
          → t.listeners ≡ (offer hn xi name decrypt j fuel now p l pkt r).0
          → ((s : Router) (out : Receive.Outcome)
              → s.exchange ≡ t.exchange
              → Receives fuel now p c pkt s out
              → Answered hn xi name decrypt j fuel now p pkt s out answer)
          → received_packet fuel now c pkt ≡ o
          → Goes (delivered_to p t o)
      fresh_to-Routes t c none i ls answered e = tt
      fresh_to-Routes t c (some (d, o)) i ls answered e = (
        up,
        (
          pkt,
          holds,
          inr (record {
            free = free;
            has_type = has_type;
            listener = l;
            found = found;
            listeners = ls;
            answered =
                answered (record t { channels = insert p d t.channels }) o refl
                  (record { after = d; received = e; there = lookup-insert_self p d t.channels });
            isolated = record {
              table = i.table;
              others = λ k other. lookup-insert_other p k d t.channels other ∙ i.others k other;
            };
          }),
        ),
      )

      abbrev offered_to : Router
      offered_to = record (added hn xi name decrypt j p pkt r) {
        listeners = (offer hn xi name decrypt j fuel now p l pkt r).0;
      }

      added-table :
          (k : ℕ)
          → lookup k offered_to.exchange.channels
            ≡ lookup k (insert pkt.header.c p r.exchange.channels)
      added-table k = ap (lookup k) (reset_expire-channels _)

      added-Isolated : Isolated pkt.header.c p r offered_to
      added-Isolated = record {
        table = λ k other.
            added-table k ∙ lookup-insert_other pkt.header.c k p r.exchange.channels other;
        others = λ k other. lookup-insert_other p k _ r.channels other;
      }

      abbrev dropped_from : Exchange
      dropped_from = reset_expire (remove_channel pkt.header.c offered_to.exchange)

      -- A channel that is refused loses its number again.
      dropped-table :
          (k : ℕ)
          → lookup k dropped_from.channels
            ≡ (if pkt.header.c == k then none else lookup k offered_to.exchange.channels)
      unfolding remove_channel
      dropped-table k =
          ap (lookup k) (reset_expire-channels _)
          ∙ lookup-erase pkt.header.c k offered_to.exchange.channels

      dropped-Isolated : Isolated pkt.header.c p r (record offered_to {
        exchange = dropped_from;
        channels =
            insert p
              (kill (new_of hn xi name decrypt j fuel now p pkt))
              (insert p (new_of hn xi name decrypt j fuel now p pkt) r.channels);
      })
      dropped-Isolated = record {
        table = λ k other.
            dropped-table k ∙ rw (ne→apart k pkt.header.c other) (added-Isolated.table k other);
        others = λ k other.
            lookup-insert_other p k _ _ other ∙ lookup-insert_other p k _ r.channels other;
      }

      fresh-Routes :
          (w : Option Refusal)
          → answer ≡ w
          → Goes (
              deliver_at fuel now p pkt
                (unless_refused p pkt.header.c offered_to w)
                (lookup p (unless_refused p pkt.header.c offered_to w).channels))
      fresh-Routes none e =
          let c = new_of hn xi name decrypt j fuel now p pkt in
          subst (λ o. Goes (deliver_at fuel now p pkt offered_to o))
            (sym (lookup-insert_self p c r.channels))
            (fresh_to-Routes offered_to c _ added-Isolated refl
              (λ s out same received.
                subst (Answered hn xi name decrypt j fuel now p pkt s out) (sym e) (
                  ap (λ (x : Exchange). lookup pkt.header.c x.channels) same
                      ∙ added-table pkt.header.c
                      ∙ lookup-insert_self pkt.header.c p r.exchange.channels,
                  received,
                ))
              refl)
      fresh-Routes (some why) e =
          let c = new_of hn xi name decrypt j fuel now p pkt in
          let m = insert p c r.channels in
          let x = dropped_from in
          subst
            (λ (n : List (ℕ × Channel)). Goes (
              deliver_at fuel now p pkt (record offered_to { exchange = x; channels = n })
                (lookup p n)))
            (sym (ap (λ o. killed p o m) (lookup-insert_self p c r.channels)))
            (subst
              (λ o. Goes (
                deliver_at fuel now p pkt
                  (record offered_to { exchange = x; channels = insert p (kill c) m }) o))
              (sym (lookup-insert_self p (kill c) m))
              (fresh_to-Routes (record offered_to { exchange = x; channels = insert p (kill c) m })
                (kill c) _ dropped-Isolated refl
                (λ s out same received.
                  subst (Answered hn xi name decrypt j fuel now p pkt s out) (sym e) (
                    ap (λ (x : Exchange). lookup pkt.header.c x.channels) same
                        ∙ dropped-table pkt.header.c
                        ∙ rw ((==_iff pkt.header.c pkt.header.c).1 refl) refl,
                    received,
                  ))
                refl))

    open_with-Routes :
        (o : Option ℕ)
        → lookup pkt.header.c r.exchange.channels ≡ none
        → pkt.header.has_type ≡ true
        → Registry.get (name pkt.header.type) r.sets ≡ o
        → Goes (open_with hn xi name decrypt j fuel now p pkt r o)
    open_with-Routes none free t e = (refl, (pkt, holds, free, e))
    open_with-Routes (some l) free t e = fresh-Routes free t l e _ refl

    route_found-Routes :
        (o : Option ℕ)
        → lookup pkt.header.c r.exchange.channels ≡ o
        → Goes (route_found hn xi name decrypt j fuel now p pkt r o)
    route_found-Routes none free =
        if_intro Goes (not pkt.header.has_type)
          (λ no_type. (refl, (pkt, holds, free, ground arith)))
          (λ typed. open_with-Routes _ free (ground arith) refl)
    route_found-Routes (some q) there = known_at-Routes q _ there refl

  route_decrypted-Routes :
      (m : Packet) (o : Option Packet)
      → decode j msg ≡ Coder.ok m
      → decrypt m ≡ o
      → Goes (route_decrypted hn xi name decrypt j fuel now p r o)
  route_decrypted-Routes m none e d = (refl, (m, e, d))
  route_decrypted-Routes m (some pkt) e d =
      if_intro Goes (not pkt.header.has_c) (λ no_id. (refl, (m, pkt, e, d, ground arith)))
        (λ id.
          route_found-Routes pkt
            (record { outer = m; read = e; decrypted = d; has_id = ground arith }) _ refl)

  route_decoded-Routes :
      (o : Coder.Outcome Packet)
      → decode j msg ≡ o
      → Goes (route_decoded hn xi name decrypt j fuel now p r o)
  route_decoded-Routes (Coder.ok m) e = route_decrypted-Routes m _ e refl
  route_decoded-Routes Coder.panics e = tt
  route_decoded-Routes Coder.invalid_packet e = (refl, (λ m k. cc (e, k)))
  route_decoded-Routes Coder.encoding_error e = (refl, (λ m k. cc (e, k)))

pub route_packet-Routes :
    (hn : Bytes) (xi : ExchangeI) (name : Bytes → ℕ) (decrypt : Packet → Option Packet) (j : Json)
    (fuel now p : ℕ) (msg : Bytes) (r : Router)
    → Routes hn xi name decrypt j fuel now p msg r
        (route_packet hn xi name decrypt j fuel now p msg r)
unfolding route_packet
route_packet-Routes hn xi name decrypt j fuel now p msg r =
    if_intro (Routes hn xi name decrypt j fuel now p msg r) (not (is_open r.exchange.state))
      (λ down. (refl, ground arith))
      (λ up. route_decoded-Routes hn xi name decrypt j fuel now p msg r (ground arith) _ refl)
