-- ===== src/Lib.antt =====
-- gogotelehash is a Go implementation of the telehash v3 protocol: endpoints exchange encrypted
-- packets over transports, and channels carry ordered or unordered packet streams between them.
--
-- The parts that are modelled, and how they meet:
--   * internal/lob, the packet format: `Decode` and `Encode` between bytes and `Packet`, the JSON
--     header parser of header_coder.go, and the printer `writeTo` of coder.go.
--   * e3x/channel.go, the channel: sequence numbers, acknowledgements and miss lists travel in the
--     `Header` of lob packets; a channel hands its packets to an exchange (`deliverPacket`).
--   * e3x/exchange.go, the exchange that a channel belongs to: its state machine, the numbers of
--     handshakes and channels, its handshakes, which it frames as lob packets, and the way of a received
--     message to its channel, by way of a listener if the channel is new.
--   * e3x/channel_set.go, the table of an exchange's channels, whose `GetOrAdd` holds the lock until its
--     promise is kept.
--   * e3x/exchange_address_book.go, the paths of an exchange to its peer: handshakes measure them, and
--     an epoch chooses the one for channel packets and those that handshakes are sent to.
--   * e3x/listener.go, the listeners that take the channels a peer opens, and the sets that they are
--     found in.
--   * internal/hashname and internal/util/base32util, the names of endpoints, derived from the hashes
--     of their keys.
--   * e3x/cipherset: the selection of a cipher set, the keys and parts of an identity in a header, and
--     the tokens by which messages are found; cs3a and cs1a, the two cipher sets, which seal messages,
--     handshakes and the packets of an exchange.
--   * e3x/exchange_pipe.go, the pipes over which an exchange writes and reads.
--   * e3x/endpoint.go, the tables in which an endpoint finds the exchange of a message by its token, and
--     of a handshake by the hashname of its sender; e3x/identity.go and e3x/hooks.go.
--   * transports/fw, the firewall around a transport.
--
-- Where a part stands:
--   * Lob.Packet: `Header`, `Packet`, `IsZero`, `IsBinary`. Lob.Scan: `scanSpace` to `scanArray`.
--     Lob.Parse and Lob.Parse.Fields: `parseUint32`, `parseBool`, `parseString`, one case of
--     `parse_value` for each of `parseC` to `parseOther`, and `parseHeader`. Lob.Print: `writeTo`,
--     with `%d` and `%q` of fmt. Lob.Coder: `Decode`, `Encode`. Lob.RoundTrip.*: reading what was
--     written.
--   * Channel.Types: the structs, constants and errors, and `newChannel`. Channel.Guards: `blockWrite`,
--     `blockRead`, `blockClose`. Channel.Miss: `buildMissList`. Channel.Send: `write`, the
--     acknowledgements and resends. Channel.Read: `ReadPacket`, `peekPacket`, `readPacket`,
--     `WritePacketTo`. Channel.Receive: `receivedPacket`, `IndexOf`. Channel.Deadlines: the timers and
--     `Kill`. Channel.Close: `Error` and `Close`. Channel.Step: the interleavings.
--     Channel.Refine: the machine of accepted and handed out packets that a channel implements.
--     Channel.Invariant.*, Channel.Buffer.*, Channel.Miss.*, Channel.Receive.Ack, Channel.Sent and
--     Channel.Outcome hold the proofs.
--   * Lob.Extra: the accessors `Get` to `SetUint32Slice`. Exchange: the state and the calls, and
--     Exchange.Handshakes: the handshakes; the proofs are in Exchange.Laws (numbers) and Exchange.Life
--     (states). Exchange.Route: `receivedPacket`, which finds the channel of a message by the tables of
--     channels and listeners; Exchange.Effect says what a message does, the proofs are in
--     Exchange.Isolation and Exchange.Delivery. ChannelSet and ChannelSet.Laws.
--     Firewall and Firewall.Laws.
--   * AddressBook: the book and its calls, and what exchange.go does with it: `deliverHandshake`,
--     `AddPathCandidate`, `AddPipeConnection`. AddressBook.Sorting:
--     the contract of `sort.Sort`. AddressBook.Epoch, AddressBook.Invariant and AddressBook.Broken hold
--     the proofs about `NextHandshakeEpoch`, all calls in any order, and a peer that is lost.
--   * Listener: `Listener`, `handle`, `AcceptChannel`, `Close`, with the proofs in Listener.Laws.
--     Listener.Registry: `listenerSet`. Hashname.Base32: `EncodeToString`, `DecodeString`,
--     `ValidString`. Hashname.Derive: `FromIntermediates`, `FromKeys`, `FromKeyAndIntermediates`, with
--     the proofs in Hashname.Laws and Hashname.Keys.
--   * Cipher.Parts: map.go and registry.go. Cipher.Token: `ExtractToken`. Cipher.Answer: how a call ends.
--     Cipher.Cs3a and Cipher.Cs1a: the state and its `update`; below each of them Message (`EncryptMessage`,
--     `DecryptMessage` and the handshakes), Line (`EncryptPacket`, `DecryptPacket`) and Contract (what the
--     cryptography promises), with the proofs in the modules RoundTrip. Cipher.Cs3a.Session: the few
--     choices that determine a state. Cipher.Cs3a.Reach: the states that the calls lead to.
--     Cipher.Cs3a.Link: two sides of a session. Cipher.Cs3a.Line.Nonce: the nonces. Cipher.Cs1a.Fold: fold.go.
--     Cipher.Inner: the packet inside a handshake, encoded and decoded.
--   * Exchange.Pipe: `newPipe`, `dial`, `Close` and the readers, one function for each critical section.
--     Endpoint.Exchanges: `accept`, `onExchangeClosed`, `CreateExchange`. Endpoint.Identity: `NewIdentity`.
--     Endpoint.Hooks: `trigger`. Endpoint.Table: maps by token or name. Endpoint.Laws: the proofs.
--   * The modules named Tests hold runs on concrete values.
--
-- State. A channel is the record `Channel`, field by field that of the code. Each critical section is a
-- function from the state to the state and its answer; calls of the exchange, signals, broadcasts,
-- frees and the Closed hook are added to the front of the field `log`. A call that waits on a condition
-- variable is an attempt: it answers `waits` where the loop of the code would wait. `Step` and `Reach`
-- say which states the goroutines of a channel reach, in any order. uint32 wraps at 2 ^ 32; times are
-- nanoseconds.
--
-- Parameters. The exchange (`ExchangeI`) answers each delivery by any function of what happened before.
-- The box of NaCl, poly1305, the curve of cipher set 1a (eccp, ecdh, secp160r1), AES, HMAC and SHA-256 are
-- `Nacl` and `Suite`; what proofs need of them is in the records `IsNacl`, `IsSymmetric`
-- and `IsCurve`, the last for private keys from 1 to below the order of the curve only, and of
-- encoding/json in `IsJson`. Random bytes are arguments. An endpoint sees its exchanges and cipher sets through `ExchangeI`.
-- encoding/json (`Json`) decodes and encodes the values of unknown header fields. The cipher of an
-- exchange is the function `encrypt` and what a `Handshake` says of it. The transport below a firewall
-- is what it answers to each call. SHA-256 is a function whose results have 32 bytes. The float64 average
-- of latencies is any function, and `sort.Sort` any that meets its contract. A pipe, an address, a channel
-- type and a listener's pointer are numbers where only their equality counts.
--
-- Fuel. The loop of `buildMissList` leaves after 99 numbers, so 100 rounds are enough; `sort.Search`
-- halves its range; the loops of `parseHeader`, `parseMiss` and the scanners take a byte each round
-- and have one round more than there are bytes. The acknowledgement loop of `receivedPacket` is the
-- one that can go on forever: its fuel is an argument. `fold` has a round for each byte.
--
-- Not modelled: traces, counters and logs; buffer pools (a buffer is its bytes, with the limit of 1500
-- of `bufpool.Buffer.Set`); the adapters `Read` and `Write` of net.Conn; of an exchange its
-- hooks, `deliverPacket`, and what `expire` does behind its unlock; of an endpoint its options, start,
-- `Close` and modules; of an identity and of keys and parts their JSON; transports and modules, which are
-- goroutines and sockets around these parts; the arithmetic of the curve of cipher set 1a, for which a
-- parameter stands; and all vendored packages.

pub mod Prelude
pub mod Lob
pub mod Channel
pub mod ChannelSet
pub mod Firewall
pub mod AddressBook
pub mod Listener
pub mod Hashname
pub mod Cipher
pub mod Exchange
pub mod Endpoint
