-- ===== src/Channel/Invariant/Delivery.antt =====
-- e3x/channel.go: the reader gets the packets in the order of their sequence numbers, each once.
use gogotelehash.Channel.Ascends.{Ascends}
use gogotelehash.Channel.Guards.{block_read, head_differs}
use gogotelehash.Channel.Invariant.Defs.{ReadView, IsWellFormed}
use gogotelehash.Channel.Invariant.Read.{read_entry-Keeps}
use gogotelehash.Channel.Read.{
  Attempt, waits, panics, done, Read, no_packet, peek_entry, peek_packet, consume_read,
  then_consume, read_packet_attempt, take_entry, read_entry, clean_headers, is_bare_end, peek_entry,
}
use gogotelehash.Channel.Types.{Channel, ReadBufferEntry, Error, eof, u32}
use gogotelehash.Prelude.{
  ◌+◌, ◌≡◌, refl, sym, ap, ◌∙◌, subst, ◌⊎◌, inl, inr, Bool, true, none, some, List, [], ◌∷◌, arith,
  Bool-cases, false, if◌then◌else◌,
}

-- How a call of `ReadPacket` that does not wait ends: it is stopped and changes nothing; or it takes
-- the packet behind the last one read off the buffer, and hands it out with cleaned headers; or that
-- packet is a bare `end`, and the call answers EOF.
pub data Delivers (c : Channel) (r : Read) : Type 0 where
  stopped : (err : Error) → r.chan ≡ c → r.pkt ≡ none → r.error ≡ some err → Delivers c r
  taken :
      (e : ReadBufferEntry) (rest : List ReadBufferEntry)
      → c.read_buffer ≡ e ∷ rest
      → e.seq ≡ c.i_seq + 1
      → r.chan.i_seq ≡ c.i_seq + 1
      → r.chan.read_buffer ≡ rest
      → ((r.pkt ≡ some (clean_headers e.pkt)) × (r.error ≡ none))
        ⊎ ((r.pkt ≡ none) × (r.error ≡ some eof) × (e.end ≡ true) × (e.pkt.body ≡ []))
      → Delivers c r

next_seq :
    (c : Channel) (e : ReadBufferEntry) (rest : List ReadBufferEntry)
    → IsWellFormed c
    → c.read_buffer ≡ e ∷ rest
    → e.seq ≡ u32 (c.i_seq + 1)
    → e.seq ≡ c.i_seq + 1
next_seq c e rest w b h =
    let up = subst (Ascends c.i_seq) b w.read_side.ordered in omega (arith, up.0, h)

take_entry-view :
    (c : Channel) (e : ReadBufferEntry) (rest : List ReadBufferEntry)
    → ((read_entry c e rest).i_seq ≡ u32 (c.i_seq + 1)) × ((read_entry c e rest).read_buffer ≡ rest)
unfolding take_entry
take_entry-view c e rest =
    let k = (read_entry-Keeps c e rest).same_view in
    (ap (λ (v : ReadView). v.i_seq) k, ap (λ (v : ReadView). v.read_buffer) k)

abbrev pub Outcomes : Channel → Attempt Read → Type 0
Outcomes c waits = Unit
Outcomes c panics = Unit
Outcomes c (done r) = Delivers c r

is_bare_end-body : (e : ReadBufferEntry) → is_bare_end e ≡ true → (e.end ≡ true) × (e.pkt.body ≡ [])
is_bare_end-body e h = ground arith

consume_peek-Outcomes :
    (c : Channel) (e : ReadBufferEntry) (rest : List ReadBufferEntry)
    → IsWellFormed c
    → c.read_buffer ≡ e ∷ rest
    → e.seq ≡ u32 (c.i_seq + 1)
    → Outcomes c (consume_read (peek_entry c e rest))
unfolding consume_read peek_entry
consume_peek-Outcomes c e rest w b h =
    let e' = record e { pkt = clean_headers e.pkt } in
    let s = next_seq c e rest w b h in
    let v = take_entry-view c e' rest in
    let v' = take_entry-view (record c { read_buffer = e' ∷ rest }) e' rest in
    elim (Bool-cases (is_bare_end e')) [
      | inl bare ↦ rw bare (
          let (ended, bodiless) = is_bare_end-body e' bare in
          taken e rest b s (v.0 ∙ sym h ∙ s) v.1 (inr (refl, refl, ended, bodiless)))
      | inr more ↦ rw more (taken e rest b s (v'.0 ∙ sym h ∙ s) v'.1 (inl (refl, refl)))
    ]

if-Outcomes :
    (c : Channel) (b : Bool) (s t : Attempt Read)
    → Outcomes c (then_consume s)
    → (b ≡ false → Outcomes c (then_consume t))
    → Outcomes c (then_consume (if b then s else t))
if-Outcomes c true s t h k = h
if-Outcomes c false s t h k = k refl

no_packet-Outcomes : (c : Channel) (err : Error) → Outcomes c (consume_read (no_packet c err))
unfolding consume_read
no_packet-Outcomes c err = stopped err refl refl refl

-- The buffer of a reader that no check stops begins with the next packet.
head_is_next :
    (c : Channel)
    → block_read c ≡ false
    → c.broken ≡ false
    → c.read_deadline_reached ≡ false
    → c.read_end ≡ false
    → head_differs c.read_buffer (u32 (c.i_seq + 1)) ≡ false
unfolding block_read
head_is_next c h b d e = ground arith

buffer-Outcomes :
    (c : Channel) (s : List ReadBufferEntry)
    → c.read_buffer ≡ s
    → IsWellFormed c
    → head_differs s (u32 (c.i_seq + 1)) ≡ false
    → Outcomes c (then_consume (elim s [ [] ↦ panics | e ∷ rest ↦ done (peek_entry c e rest) ]))
buffer-Outcomes c [] b w h = tt
buffer-Outcomes c (e ∷ rest) b w h = consume_peek-Outcomes c e rest w b (ground arith)

pub peek_packet-Outcomes :
    (c : Channel)
    → IsWellFormed c
    → block_read c ≡ false
    → Outcomes c (then_consume (peek_packet c))
unfolding peek_packet
peek_packet-Outcomes c w h = if-Outcomes c c.broken _ _ (no_packet-Outcomes c _) (λ b.
    if-Outcomes c c.read_deadline_reached _ _ (no_packet-Outcomes c _) (λ d.
      if-Outcomes c c.read_end _ _ (no_packet-Outcomes c _)
        (λ e. buffer-Outcomes c c.read_buffer refl w (head_is_next c h b d e))))

-- On a well-formed channel every call of `ReadPacket` that does not wait either is stopped by an
-- error and changes nothing, or takes exactly the packet with the sequence number behind the last
-- one read off the front of the buffer and advances by one: it hands that packet out with cleaned
-- headers, or answers EOF if it is a bare `end`.
pub read_packet_attempt-Delivers :
    (c : Channel) (r : Read) → IsWellFormed c → read_packet_attempt c ≡ done r → Delivers c r
unfolding read_packet_attempt
read_packet_attempt-Delivers c r w h = elim (Bool-cases (block_read c)) [
  | inl blocked ↦ cc (rw blocked at h)
  | inr free ↦ subst (Outcomes c) (rw free at h) (peek_packet-Outcomes c w free)
]
