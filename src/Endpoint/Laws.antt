-- ===== src/Endpoint/Laws.antt =====
-- e3x/endpoint.go: which messages change the tables, and to which exchange a message goes.
use gogotelehash.Cipher.Token.{extract_token}
use gogotelehash.Endpoint.Exchanges.{
  ExchangeI, Endpoint, Fate, read_failed, dropped, delivered, closes, drop_packet, dropped_with,
  deliver, read_handshake, join, meet, meet_named, join_or_drop, by_token, accept,
  on_exchange_closed, get_exchange, register, create_from, found_or_create, create_exchange,
  local_identity,
}
use gogotelehash.Endpoint.Hooks.{Returned, nothing, stop_propagation, failed, trigger, trigger-ne}
use gogotelehash.Endpoint.Identity.{Identity}
use gogotelehash.Endpoint.Table.{find, put, find-put, find-put_same, find-remove, find-remove-none}
use gogotelehash.Lob.Packet.{Bytes}
use gogotelehash.Lob.Parse.Fields.{bytes_eq}
use gogotelehash.Prelude.{
  ℕ, ◌≡◌, refl, ap, Option, none, some, true, length, ◌≢◌, ◌⊎◌, ◌≤◌, sym, ◌∙◌, inl, inr, false,
  arith, ltb, if_intro, Bool-cases, subst,
}

closes-ne : (r : Returned) → r ≢ stop_propagation → closes r ≡ true
closes-ne nothing h = refl
closes-ne stop_propagation h = absurd (h refl)
closes-ne (failed e) h = refl

module _ (I : ExchangeI) where
  open I use {
    towards, Exchange, sha, Handshake, Addr, answering, local_token, remote_token, remote_ident,
  }

  -- What may become of a message: read errors change nothing; a message that is dropped changes nothing
  -- but what the hooks did, and its connection is closed; one that is delivered without being a
  -- handshake for an unknown token leaves both tables as they were.
  abbrev pub Spares : Bytes → Endpoint I → Endpoint I × Fate → Type 0
  Spares msg e (e', read_failed) = e' ≡ e
  Spares msg e (e', dropped closed) = (closed ≡ true) × (e' ≡ record e { outside = e'.outside })
  Spares msg e (e', delivered id) =
      ((find (extract_token sha msg) e.tokens ≡ some id) × (e' ≡ deliver I id msg e))
      ⊎ ((find (extract_token sha msg) e.tokens ≡ none) × (read_handshake I msg e ≢ none))

  dropped_with-Spares :
      (msg : Bytes) (e : Endpoint I) (s : I.Outside × Returned)
      → s.1 ≢ stop_propagation
      → Spares msg e (dropped_with I s e)
  dropped_with-Spares msg e (s, r) h = (closes-ne r h, refl)

  drop_packet-Spares : (msg : Bytes) (e : Endpoint I) → Spares msg e (drop_packet I msg e)
  drop_packet-Spares msg e =
      dropped_with-Spares msg e (trigger (e.drop_hooks msg) e.outside)
        (trigger-ne (e.drop_hooks msg) e.outside)

  find-local :
      (x : Exchange) (e : Endpoint I)
      → find (local_token x) (put (remote_token x) e.next (put (local_token x) e.next e.tokens))
        ≡ some e.next
  find-local x e =
      find-put (local_token x) (remote_token x) e.next (put (local_token x) e.next e.tokens)
      ∙ elim (Bool-cases (bytes_eq (remote_token x) (local_token x))) [
        | inl same ↦ rw (same) refl
        | inr apart ↦ rw (apart) (find-put_same (local_token x) e.next e.tokens)
      ]

  join_or_drop-Spares :
      (msg hn : Bytes) (e : Endpoint I) (o : Option Exchange)
      → find (extract_token sha msg) e.tokens ≡ none
      → read_handshake I msg e ≢ none
      → Spares msg e (join_or_drop I o hn msg e)
  join_or_drop-Spares msg hn e none t n = drop_packet-Spares msg e
  join_or_drop-Spares msg hn e (some x) t n = inr (t, n)

  meet_named-Spares :
      (msg hn : Bytes) (e : Endpoint I) (ident : Identity Addr) (h : Handshake) (o : Option ℕ)
      → find (extract_token sha msg) e.tokens ≡ none
      → read_handshake I msg e ≢ none
      → Spares msg e (meet_named I o ident h hn msg e)
  meet_named-Spares msg hn e ident h none t n = join_or_drop-Spares msg hn e (answering ident h) t n
  meet_named-Spares msg hn e ident h (some id) t n = inr (t, n)

  meet-Spares :
      (msg : Bytes) (e : Endpoint I) (o : Option (Identity Addr × Handshake × Bytes))
      → read_handshake I msg e ≡ o
      → find (extract_token sha msg) e.tokens ≡ none
      → Spares msg e (meet I o msg e)
  meet-Spares msg e none r t = drop_packet-Spares msg e
  meet-Spares msg e (some (ident, h, hn)) r t =
      meet_named-Spares msg hn e ident h (find hn e.hashnames) t
        (λ n. let clash : some (ident, h, hn) ≡ none = sym r ∙ n in cc)

  by_token-Spares :
      (msg : Bytes) (e : Endpoint I) (o : Option ℕ)
      → find (extract_token sha msg) e.tokens ≡ o
      → Spares msg e (by_token I o msg e)
  by_token-Spares msg e none t = meet-Spares msg e (read_handshake I msg e) refl t
  by_token-Spares msg e (some id) t = inl (t, refl)

  -- Every message that a new connection brings is dropped, which changes none of the endpoint's tables
  -- and closes the connection whatever the hooks answer; or is delivered to the exchange of its token,
  -- which leaves both tables as they are; or has no such exchange and is a handshake that the endpoint
  -- can read.
  pub accept-Spares : (msg : Bytes) (e : Endpoint I) → Spares msg e (accept I (some msg) e)
  unfolding accept
  accept-Spares msg e =
      if_intro (Spares msg e) (ltb (length msg) 2) (λ t. drop_packet-Spares msg e)
        (λ f. by_token-Spares msg e (find (extract_token sha msg) e.tokens) refl)

  -- A message with a token of the table goes to the exchange of that token.
  pub accept-token :
      (msg : Bytes) (id : ℕ) (e : Endpoint I)
      → 2 ≤ length msg
      → find (extract_token sha msg) e.tokens ≡ some id
      → (accept I (some msg) e).1 ≡ delivered id
  unfolding accept
  accept-token msg id e long t =
      let enough : ltb (length msg) 2 ≡ false = ground arith in rw (enough, t) refl

  accept-join :
      (msg hn : Bytes) (ident : Identity Addr) (h : Handshake) (x : Exchange) (e : Endpoint I)
      → 2 ≤ length msg
      → find (extract_token sha msg) e.tokens ≡ none
      → read_handshake I msg e ≡ some (ident, h, hn)
      → find hn e.hashnames ≡ none
      → answering ident h ≡ some x
      → accept I (some msg) e ≡ (join I x hn msg e, delivered e.next)
  unfolding accept
  accept-join msg hn ident h x e long t r n made =
      let enough : ltb (length msg) 2 ≡ false = ground arith in rw (enough, t, r, n, made) refl

  -- The first handshake of a peer makes an exchange: it is the one that the endpoint has for the
  -- peer's hashname, and each later message of two bytes or more with one of its tokens is delivered to
  -- it.
  pub accept-routes :
      (msg hn : Bytes) (ident : Identity Addr) (h : Handshake) (x : Exchange) (e : Endpoint I)
      → 2 ≤ length msg
      → find (extract_token sha msg) e.tokens ≡ none
      → read_handshake I msg e ≡ some (ident, h, hn)
      → find hn e.hashnames ≡ none
      → answering ident h ≡ some x
      → (e' : Endpoint I) × (accept I (some msg) e ≡ (e', delivered e.next))
        × (get_exchange I hn e' ≡ some e.next)
        × ((later : Bytes)
            → 2 ≤ length later
            → (extract_token sha later ≡ local_token x) ⊎ (extract_token sha later ≡ remote_token x)
            → (accept I (some later) e').1 ≡ delivered e.next)
  unfolding get_exchange
  accept-routes msg hn ident h x e long t r n made =
      let e' = join I x hn msg e in
      (
        e',
        accept-join msg hn ident h x e long t r n made,
        find-put_same hn e.next e.hashnames,
        λ later enough whose. accept-token later e.next e' enough (elim whose [
          | inl mine ↦ ap (λ k. find k e'.tokens) mine ∙ find-local x e
          | inr theirs ↦
              ap (λ k. find k e'.tokens) theirs
              ∙ find-put_same (remote_token x) e.next (put (local_token x) e.next e.tokens)
        ]),
      )

  -- What a call gives is under the hashname.
  abbrev Named : Bytes → Endpoint I × Option ℕ → Type 0
  Named hn (e, none) = Unit
  Named hn (e, some id) = find hn e.hashnames ≡ some id

  register-Named :
      (o : Option Exchange) (hn : Bytes) (e : Endpoint I) → Named hn (register I o hn e)
  register-Named none hn e = tt
  register-Named (some x) hn e = find-put_same hn e.next e.hashnames

  create_from-Named :
      (o : Option (Identity Addr)) (ident : Identity Addr) (e : Endpoint I)
      → Named ident.hashname (create_from I o ident e)
  create_from-Named none ident e = tt
  create_from-Named (some mine) ident e = register-Named (towards mine ident) ident.hashname e

  found_or_create-Named :
      (ident : Identity Addr) (e : Endpoint I) (o : Option ℕ)
      → find ident.hashname e.hashnames ≡ o
      → Named ident.hashname (found_or_create I o ident e)
  found_or_create-Named ident e none f = create_from-Named (local_identity I e) ident e
  found_or_create-Named ident e (some id) f = f

  -- `CreateExchange` is idempotent: a second call for the hashname gives the same exchange and changes
  -- nothing, and the endpoint has it under that hashname.
  create_exchange-create_exchange :
      (ident : Identity Addr) (e e' : Endpoint I) (id : ℕ)
      → create_exchange I ident e ≡ (e', some id)
      → (create_exchange I ident e' ≡ (e', some id)) × (get_exchange I ident.hashname e' ≡ some id)
  unfolding create_exchange get_exchange
  create_exchange-create_exchange ident e e' id made =
      let there =
        subst (Named ident.hashname) made
          (found_or_create-Named ident e (find ident.hashname e.hashnames) refl) in
      (ap (λ o. found_or_create I o ident e') there, there)

  -- When an exchange is closed, neither its tokens nor the hashname that it has of its peer lead to it
  -- or to any other.
  on_exchange_closed_lem :
      (x : Exchange) (e : Endpoint I)
      → (find (local_token x) (on_exchange_closed I x e).tokens ≡ none)
        × (find (remote_token x) (on_exchange_closed I x e).tokens ≡ none)
        × ((hn : Bytes)
            → remote_ident x ≡ some hn
            → get_exchange I hn (on_exchange_closed I x e) ≡ none)
  unfolding on_exchange_closed get_exchange
  on_exchange_closed_lem x e = (
    find-remove-none (local_token x) (remote_token x) _ (find-remove (local_token x) _),
    find-remove (remote_token x) _,
    λ hn known. rw (known) (find-remove hn e.hashnames),
  )
