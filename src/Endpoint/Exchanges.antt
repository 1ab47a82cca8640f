-- ===== src/Endpoint/Exchanges.antt =====
-- e3x/endpoint.go: the exchanges of an endpoint, by hashname and by token, and the message that a new
-- connection brings. A function is a critical section under `e.mtx`.
use gogotelehash.Cipher.Token.{extract_token}
use gogotelehash.Endpoint.Hooks.{Returned, nothing, stop_propagation, failed, trigger}
use gogotelehash.Endpoint.Identity.{Identity, new_identity}
use gogotelehash.Endpoint.Table.{find, put, remove}
use gogotelehash.Hashname.Derive
use gogotelehash.Hashname.Derive.{Derived, from_key_and_intermediates}
use gogotelehash.Lob.Packet.{Bytes}
use gogotelehash.Lob.Parse.Fields.{bytes_eq}
use gogotelehash.Prelude.Map.{lookup, insert}
use gogotelehash.Prelude.{
  ℕ, List, [], ◌∷◌, Option, none, some, Bool, length, ◌==◌, if◌then◌else◌, ◌+◌, true, false, ◌&&◌,
  ltb,
}

-- The exchanges and cipher sets, as an endpoint calls them: `decrypt csid key message` is
-- `cipherset.DecryptHandshake`, `answering` and `towards` are `newExchange` of a handshake and of an
-- identity, `remote_ident` is the hashname of the identity that the exchange has of its peer. What
-- hooks and callers beyond them can see is `Outside`.
pub record ExchangeI : Type 1 where
  pub Exchange : Type 0
  pub Handshake : Type 0
  pub Addr : Type 0
  pub Outside : Type 0
  pub sha : Bytes → Bytes
  pub decrypt : ℕ → Bytes → Bytes → Option Handshake
  pub public_key : Handshake → Bytes
  pub parts : Handshake → List (ℕ × Bytes)
  pub answering : Identity Addr → Handshake → Option Exchange
  pub towards : Identity Addr → Identity Addr → Option Exchange
  pub start_dialing : Exchange → Exchange
  pub received : Bytes → Exchange → Exchange
  pub local_token : Exchange → Bytes
  pub remote_token : Exchange → Bytes
  pub remote_ident : Exchange → Option Bytes

-- `exchanges` is the memory: the exchange of each number that the two tables hold.
-- A hook of `drop_hooks` is told the message; the connection, the error that it is also told and the
-- pipe that `accept` makes for the connection are left out.
pub record Endpoint (I : ExchangeI) : Type 0 where
  pub keys : List (ℕ × Bytes)
  pub addrs : List (I.Addr)
  pub tokens : List (Bytes × ℕ)
  pub hashnames : List (Bytes × ℕ)
  pub exchanges : List (ℕ × I.Exchange)
  pub next : ℕ
  pub drop_hooks : Bytes → List (Option (I.Outside → I.Outside × Returned))
  pub outside : I.Outside

-- What becomes of the first message of a connection; `dropped` says whether the connection is closed.
pub data Fate : Type 0 where
  read_failed : Fate
  dropped : Bool → Fate
  delivered : ℕ → Fate

-- `err != ErrStopPropagation`
abbrev pub closes : Returned → Bool
closes nothing = true
closes stop_propagation = false
closes (failed e) = true

-- `raw[0] == 0 && raw[1] == 1`, with the third byte and what follows it.
abbrev pub handshake_of : Bytes → Option (ℕ × Bytes)
handshake_of [] = none
handshake_of (a ∷ []) = none
handshake_of (a ∷ b ∷ []) = none
handshake_of (a ∷ b ∷ csid ∷ rest) = if a == 0 && b == 1 then some (csid, rest) else none

module _ (I : ExchangeI) where
  open I use {
    Exchange, Handshake, Addr, Outside, sha, decrypt, public_key, parts, answering, towards,
    start_dialing, received, local_token, remote_token, remote_ident,
  }

  -- `LocalIdentity`
  abbrev pub local_identity : Endpoint I → Option (Identity Addr)
  local_identity e = new_identity sha e.keys [] e.addrs

  abbrev pub dropped_with : Outside × Returned → Endpoint I → Endpoint I × Fate
  dropped_with (s, r) e = (record e { outside = s }, dropped (closes r))

  -- `DropPacket`, behind which the connection is closed unless the hooks say otherwise.
  abbrev pub drop_packet : Bytes → Endpoint I → Endpoint I × Fate
  drop_packet msg e = dropped_with (trigger (e.drop_hooks msg) e.outside) e

  abbrev pub kept_at : ℕ → Exchange → Endpoint I → Endpoint I
  kept_at id x e = record e { exchanges = insert id x e.exchanges }

  abbrev pub deliver_to : Option Exchange → ℕ → Bytes → Endpoint I → Endpoint I
  deliver_to none id msg e = e
  deliver_to (some x) id msg e = kept_at id (received msg x) e

  -- `exchange.received`
  abbrev pub deliver : ℕ → Bytes → Endpoint I → Endpoint I
  deliver id msg e = deliver_to (lookup id e.exchanges) id msg e

  abbrev pub known_name :
      Identity Addr → Handshake → Derived → Option (Identity Addr × Handshake × Bytes)
  known_name ident h (Derive.ok hn) = some (ident, h, hn)
  known_name ident h Derive.no_intermediate_parts = none
  known_name ident h Derive.invalid_intermediate_part = none

  abbrev pub with_handshake :
      ℕ → Identity Addr → Option Handshake → Option (Identity Addr × Handshake × Bytes)
  with_handshake csid ident none = none
  with_handshake csid ident (some h) =
      known_name ident h (from_key_and_intermediates sha csid (public_key h) (parts h))

  abbrev pub with_key :
      ℕ → Bytes → Identity Addr → Option Bytes → Option (Identity Addr × Handshake × Bytes)
  with_key csid rest ident none = none
  with_key csid rest ident (some key) = with_handshake csid ident (decrypt csid key rest)

  abbrev pub with_identity :
      ℕ → Bytes → Option (Identity Addr) → Endpoint I → Option (Identity Addr × Handshake × Bytes)
  with_identity csid rest none e = none
  with_identity csid rest (some ident) e = with_key csid rest ident (lookup csid e.keys)

  abbrev pub read_handshake_of :
      Option (ℕ × Bytes) → Endpoint I → Option (Identity Addr × Handshake × Bytes)
  read_handshake_of none e = none
  read_handshake_of (some (csid, rest)) e = with_identity csid rest (local_identity e) e

  -- The steps of `accept` from the test of the first bytes to the hashname. Each failure drops.
  unfoldable pub read_handshake : Bytes → Endpoint I → Option (Identity Addr × Handshake × Bytes)
  read_handshake msg e = read_handshake_of (handshake_of msg) e

  -- `if old != new { delete(e.tokens, old); e.tokens[new] = exchange }`
  abbrev pub move_token : ℕ → Bytes → Bytes → List (Bytes × ℕ) → List (Bytes × ℕ)
  move_token id old new tokens = if bytes_eq old new then tokens else put new id (remove old tokens)

  abbrev pub rejoin_from : Option Exchange → ℕ → Bytes → Endpoint I → Endpoint I
  rejoin_from none id msg e = e
  rejoin_from (some x) id msg e =
      let y = received msg x in
      record e {
        exchanges = insert id y e.exchanges;
        tokens =
            move_token id (remote_token x) (remote_token y)
              (move_token id (local_token x) (local_token y) e.tokens);
      }

  -- A handshake for an exchange that the endpoint has.
  abbrev pub rejoin : ℕ → Bytes → Endpoint I → Endpoint I
  rejoin id msg e = rejoin_from (lookup id e.exchanges) id msg e

  -- A handshake for a new exchange, which is put in the tables before it gets the message.
  abbrev pub join : Exchange → Bytes → Bytes → Endpoint I → Endpoint I
  join x hn msg e = record e {
    hashnames = put hn e.next e.hashnames;
    tokens = put (remote_token x) e.next (put (local_token x) e.next e.tokens);
    exchanges = insert e.next (received msg (start_dialing x)) e.exchanges;
    next = e.next + 1;
  }

  abbrev pub join_or_drop : Option Exchange → Bytes → Bytes → Endpoint I → Endpoint I × Fate
  join_or_drop none hn msg e = drop_packet msg e
  join_or_drop (some x) hn msg e = (join x hn msg e, delivered e.next)

  abbrev pub meet_named :
      Option ℕ → Identity Addr → Handshake → Bytes → Bytes → Endpoint I → Endpoint I × Fate
  meet_named (some id) ident h hn msg e = (rejoin id msg e, delivered id)
  meet_named none ident h hn msg e = join_or_drop (answering ident h) hn msg e

  abbrev pub meet :
      Option (Identity Addr × Handshake × Bytes) → Bytes → Endpoint I → Endpoint I × Fate
  meet none msg e = drop_packet msg e
  meet (some (ident, h, hn)) msg e = meet_named (find hn e.hashnames) ident h hn msg e

  abbrev pub by_token : Option ℕ → Bytes → Endpoint I → Endpoint I × Fate
  by_token (some id) msg e = (deliver id msg e, delivered id)
  by_token none msg e = meet (read_handshake msg e) msg e

  abbrev pub accept_message : Bytes → Endpoint I → Endpoint I × Fate
  accept_message msg e =
      if ltb (length msg) 2
      then drop_packet msg e
      else by_token (find (extract_token sha msg) e.tokens) msg e

  -- `accept`, with what the connection gave.
  unfoldable pub accept : Option Bytes → Endpoint I → Endpoint I × Fate
  accept none e = (e, read_failed)
  accept (some msg) e = accept_message msg e

  abbrev pub forget_name : Option Bytes → Endpoint I → Endpoint I
  forget_name none e = e
  forget_name (some hn) e = record e { hashnames = remove hn e.hashnames }

  -- `onExchangeClosed`
  unfoldable pub on_exchange_closed : Exchange → Endpoint I → Endpoint I
  on_exchange_closed x e =
      let f = forget_name (remote_ident x) e in
      record f { tokens = remove (remote_token x) (remove (local_token x) f.tokens) }

  -- `GetExchange`
  unfoldable pub get_exchange : Bytes → Endpoint I → Option ℕ
  get_exchange hn e = find hn e.hashnames

  abbrev pub values : List (Bytes × ℕ) → List ℕ
  values [] = []
  values ((k, id) ∷ rest) = id ∷ values rest

  -- `GetExchanges`
  unfoldable pub get_exchanges : Endpoint I → List ℕ
  get_exchanges e = values e.hashnames

  abbrev pub register : Option Exchange → Bytes → Endpoint I → Endpoint I × Option ℕ
  register none hn e = (e, none)
  register (some x) hn e = (
    record e {
      tokens = put (local_token x) e.next e.tokens;
      hashnames = put hn e.next e.hashnames;
      exchanges = insert e.next x e.exchanges;
      next = e.next + 1;
    },
    some e.next,
  )

  abbrev pub create_from :
      Option (Identity Addr) → Identity Addr → Endpoint I → Endpoint I × Option ℕ
  create_from none ident e = (e, none)
  create_from (some mine) ident e = register (towards mine ident) ident.hashname e

  abbrev pub found_or_create : Option ℕ → Identity Addr → Endpoint I → Endpoint I × Option ℕ
  found_or_create (some id) ident e = (e, some id)
  found_or_create none ident e = create_from (local_identity e) ident e

  -- `CreateExchange`; `none` is an error.
  unfoldable pub create_exchange : Identity Addr → Endpoint I → Endpoint I × Option ℕ
  create_exchange ident e = found_or_create (find ident.hashname e.hashnames) ident e
