-- ===== src/Cipher/Cs3a/Line/RoundTrip.antt =====
-- e3x/cipherset/cs3a/cs3a_cipher.go: what one side encrypts the other finds by its token and decrypts.
use gogotelehash.Cipher.Answer.{ok, some_or, invalid_packet, then_lob, is_some, with_len}
use gogotelehash.Cipher.Cs3a.{Nacl, State, bytes_or_nil, bytes_eq}
use gogotelehash.Cipher.Cs3a.Contract.{IsNacl}
use gogotelehash.Cipher.Cs3a.Line.{
  pkt_nonce, uint64_bytes, outer_body, outer_packet, encrypt_packet, decrypt_packet, next_suffix,
  open_line, can_decrypt_packet, can_encrypt_packet,
}
use gogotelehash.Cipher.Token.{extract_token}
use gogotelehash.Lob.Coder
use gogotelehash.Lob.Coder.{encode, decode, frame}
use gogotelehash.Lob.Extra.{bytes_eq_refl}
use gogotelehash.Lob.Packet.{Bytes, Packet, empty_header, is_zero}
use gogotelehash.Lob.Parse.{Json}
use gogotelehash.Lob.Print.{write_to}
use gogotelehash.Lob.RoundTrip.Canonical.{IsCanonical}
use gogotelehash.Lob.RoundTrip.Total.{encode_bound}
use mathlib.Core.List.{append_assoc}
use gogotelehash.Prelude.{
  ◌+◌, ◌≡◌, refl, sym, ap, ◌∙◌, some, [], ◌++◌, arith, length, take, drop, length-append,
  take-append, drop-append, ◌≤◌, true, false, ltb, leb, inl, inr, Bool-cases, ◌&&◌,
}

-- What `a` encrypts with is what `b` decrypts with, and the token that `a` writes is the one by which
-- `b` is found.
pub record Linked (a b : State) : Type 0 where
  pub key : Bytes
  pub encrypts : a.line_encryption_key ≡ some key
  pub decrypts : b.line_decryption_key ≡ some key
  pub token : Bytes
  pub writes : a.remote_token ≡ some token
  pub found_by : b.local_token ≡ some token
  pub token_length : length token ≡ 16
  pub prefix : Bytes
  pub nonce_prefix : a.pkt_nonce_prefix ≡ some prefix
  pub prefix_length : length prefix ≡ 16

module _ (token nonce box : Bytes) (t : length token ≡ 16) (n : length nonce ≡ 24) where
  token_of_body : take 16 (token ++ (nonce ++ box)) ≡ token
  token_of_body = take-append token (nonce ++ box) t

  nonce_of_body : take 24 (drop 16 (token ++ (nonce ++ box))) ≡ nonce
  nonce_of_body = ap (take 24) (drop-append token (nonce ++ box) t) ∙ take-append nonce box n

  box_of_body : drop 40 (token ++ (nonce ++ box)) ≡ box
  box_of_body =
      ap (drop 40) (sym (append_assoc token nonce box))
      ∙ drop-append (token ++ nonce) box {n = 40} (omega (arith, t, n, length-append token nonce))

abbrev packet_of : Bytes → Packet
packet_of b = record { header = empty_header; body = b }

module _ (N : Nacl) (j : Json) where
  -- A packet in three parts is decrypted by a state with its key and its token.
  decrypts_body :
      (key token nonce inner : Bytes) (s : State) (pkt : Packet)
      → IsNacl N
      → s.line_decryption_key ≡ some key
      → s.local_token ≡ some token
      → length token ≡ 16
      → length nonce ≡ 24
      → length inner ≤ 1442
      → decode j inner ≡ Coder.ok pkt
      → decrypt_packet N j (packet_of (token ++ (nonce ++ N.seal inner nonce key))) s ≡ ok pkt
  unfolding decrypt_packet is_zero
  decrypts_body key token nonce inner s pkt laws d f t n fits e =
      let box = N.seal inner nonce key in
      let long : ltb (length (token ++ (nonce ++ box))) 40 ≡ false =
        ground (arith, length-append token (nonce ++ box), length-append nonce box) in
      let room : ltb 1500 (length (token ++ (nonce ++ box))) ≡ false = ground (
        arith,
        length-append token (nonce ++ box),
        length-append nonce box,
        laws.length_seal inner nonce key,
      ) in
      let opened : open_line N j (token ++ (nonce ++ box)) s ≡ some inner =
        (λ i.
          N.open_box (box_of_body token nonce box t n i) (nonce_of_body token nonce box t n i)
            (bytes_or_nil (d i)))
        ∙ laws.open_seal inner nonce key in
      let found : bytes_eq (take 16 (token ++ (nonce ++ box))) (bytes_or_nil s.local_token) ≡ true =
        (λ i. bytes_eq (token_of_body token nonce box t n i) (bytes_or_nil (f i)))
        ∙ bytes_eq_refl token in
      let ready : can_decrypt_packet s ≡ true = rw (d, f) refl in
      let small : ltb 1500 (length inner) ≡ false = ground arith in
      let read : with_len (length inner) (then_lob (decode j inner) (λ p. ok p)) ≡ ok pkt =
        rw (small) (ap (λ o. then_lob o (λ p. ok p)) e) in
      let decoded : some_or invalid_packet (open_line N j (token ++ (nonce ++ box)) s)
            (λ inner. with_len (length inner) (then_lob (decode j inner) (λ p. ok p)))
          ≡ ok pkt =
        ap
          (λ o.
            some_or invalid_packet o
              (λ inner. with_len (length inner) (then_lob (decode j inner) (λ p. ok p))))
          opened
        ∙ read in
      rw (ready, long, room, found) decoded

  encode_body : (b : Bytes) → length b ≤ 1498 → encode j (packet_of b) ≡ Coder.ok (frame [] b)
  unfolding encode is_zero
  encode_body b fits =
      let room : ltb 1500 (length (frame [] b)) ≡ false = ground arith in rw (room) refl

extract_token-frame :
    (sha : Bytes → Bytes) (token rest : Bytes)
    → length token ≡ 16
    → extract_token sha (frame [] (token ++ rest)) ≡ token
unfolding extract_token
extract_token-frame sha token rest t =
    let long : leb 16 (length (token ++ rest)) ≡ true = ground (arith, length-append token rest) in
    elim (Bool-cases (leb 17 (length (token ++ rest)))) [
      | inl e ↦ rw (e, long) (take-append token rest t)
      | inr e ↦ rw (e, long) (take-append token rest t)
    ]

module _ (N : Nacl) (j : Json) (laws : IsNacl N) (a b : State) (link : Linked a b) where
  nonce_length : length (pkt_nonce a) ≡ 24
  unfolding pkt_nonce uint64_bytes
  nonce_length =
      ap length (ap (λ p. bytes_or_nil p ++ uint64_bytes (next_suffix a)) link.nonce_prefix)
      ∙ omega (arith, link.prefix_length, length-append link.prefix (uint64_bytes (next_suffix a)))

  abbrev box : Bytes → Bytes
  box inner = N.seal inner (pkt_nonce a) link.key

  abbrev body : Bytes → Bytes
  body inner = link.token ++ (pkt_nonce a ++ box inner)

  body_is : (inner : Bytes) → outer_body N j inner a ≡ body inner
  body_is inner =
      ap
        (λ t.
          bytes_or_nil t
          ++ (pkt_nonce a ++ N.seal inner (pkt_nonce a) (bytes_or_nil a.line_encryption_key)))
        link.writes
      ∙ ap (λ k. link.token ++ (pkt_nonce a ++ N.seal inner (pkt_nonce a) (bytes_or_nil k)))
          link.encrypts

  body_length : (inner : Bytes) → length (body inner) ≡ 56 + length inner
  body_length inner = omega (
    arith,
    length-append link.token (pkt_nonce a ++ box inner),
    length-append (pkt_nonce a) (box inner),
    link.token_length,
    nonce_length,
    laws.length_seal inner (pkt_nonce a) link.key,
  )

  abbrev advanced : State
  advanced = record a { pkt_nonce_suffix = next_suffix a }

  advanced-Linked : Linked advanced b
  advanced-Linked = record {
    key = link.key;
    encrypts = link.encrypts;
    decrypts = link.decrypts;
    token = link.token;
    writes = link.writes;
    found_by = link.found_by;
    token_length = link.token_length;
    prefix = link.prefix;
    nonce_prefix = link.nonce_prefix;
    prefix_length = link.prefix_length;
  }

  encrypts_to :
      (pkt : Packet) (inner : Bytes)
      → encode j pkt ≡ Coder.ok inner
      → ltb 1500 (16 + 24 + length inner + 16) ≡ false
      → encrypt_packet N j pkt a ≡ ok (advanced, packet_of (body inner))
  unfolding encrypt_packet
  encrypts_to pkt inner done room =
      let ready : can_encrypt_packet a ≡ true =
        ap (λ k. is_some k && is_some a.remote_token) link.encrypts ∙ ap is_some link.writes in
      let sealed : outer_packet N j inner a ≡ ok (advanced, packet_of (body inner)) =
        rw (room) (ap (λ b. ok (advanced, packet_of b)) (body_is inner)) in
      rw (ready) (ap (λ o. then_lob o (λ inner. outer_packet N j inner a)) done ∙ sealed)

  -- A packet with a header of known fields, whose text and body fit 1440 bytes: what one side encrypts, the
  -- other side of a link decrypts to the same packet, and the bytes that lob makes of it carry the token
  -- by which the other side is found. The link stays.
  pub decrypt_packet-encrypt_packet :
      (pkt : Packet) (t : Bytes)
      → IsCanonical pkt.header
      → write_to j pkt.header ≡ some t
      → 2 + (length t + length pkt.body) ≤ 1442
      → (a' : State) × (outer : Packet) × (wire : Bytes) × (encrypt_packet N j pkt a
          ≡ ok (a', outer))
        × (decrypt_packet N j outer b ≡ ok pkt)
        × (encode j outer ≡ Coder.ok wire)
        × (extract_token N.sha256 wire ≡ link.token)
        × Linked a' b
  decrypt_packet-encrypt_packet pkt t k w fits =
      let (inner, done, back, short) = encode_bound j pkt t k w (omega arith) in
      let opens =
        decrypts_body N j link.key link.token (pkt_nonce a) inner b pkt laws link.decrypts
          link.found_by link.token_length nonce_length (omega (arith, short, fits)) back in
      let room : ltb 1500 (16 + 24 + length inner + 16) ≡ false = ground (arith, short, fits) in
      let wired = encode_body N j (body inner) (omega (arith, short, fits, body_length inner)) in
      (
        advanced,
        packet_of (body inner),
        frame [] (body inner),
        encrypts_to pkt inner done room,
        opens,
        wired,
        extract_token-frame N.sha256 link.token (pkt_nonce a ++ box inner) link.token_length,
        advanced-Linked,
      )
