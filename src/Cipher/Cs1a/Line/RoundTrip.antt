-- ===== src/Cipher/Cs1a/Line/RoundTrip.antt =====
-- e3x/cipherset/cs1a/cs1a_cipher.go: what one side encrypts and signs the other verifies and decrypts.
use gogotelehash.Cipher.Answer.{
  Answer, ok, invalid_packet, panics, some_or, then_lob, is_some, with_len,
}
use gogotelehash.Cipher.Cs1a.{Suite, State, nil_or}
use gogotelehash.Cipher.Cs1a.Contract.{IsSymmetric}
use gogotelehash.Cipher.Cs1a.Fold.{fold, fold-returns}
use gogotelehash.Cipher.Cs1a.Line.{
  outer_of, sealed, encrypt_packet, decrypt_packet, inner_len, nonce_part, box_part, mac_part,
  open_with, can_encrypt_packet, can_decrypt_packet,
}
use gogotelehash.Cipher.Cs1a.Message.{wide}
use gogotelehash.Lob.Coder
use gogotelehash.Lob.Coder.{encode, decode}
use gogotelehash.Lob.Extra.{bytes_eq_refl}
use gogotelehash.Lob.Packet.{Bytes, Packet, is_zero}
use gogotelehash.Lob.Parse.{Json}
use gogotelehash.Lob.Parse.Fields.{bytes_eq}
use gogotelehash.Lob.Print.{write_to}
use gogotelehash.Lob.RoundTrip.Canonical.{IsCanonical}
use gogotelehash.Lob.RoundTrip.Total.{encode_bound}
use mathlib.Core.List.{append_assoc}
use gogotelehash.Prelude.{
  ◌≡◌, refl, ap, some, length, ◌+◌, sym, ◌∙◌, ◌++◌, arith, take, drop, length-append, take-append,
  drop-append, ◌≤◌, Bool, true, false, not, ◌&&◌, ltb, if◌then◌else◌,
}

-- What `a` encrypts with is what `b` decrypts with, and the token that `a` writes is the one by which
-- `b` is found.
pub record Linked (S : Suite) (a b : State S) : Type 0 where
  pub key : Bytes
  pub encrypts : a.line_encryption_key ≡ some key
  pub decrypts : b.line_decryption_key ≡ some key
  pub token : Bytes
  pub writes : a.remote_token ≡ some token
  pub found_by : b.local_token ≡ some token
  pub token_length : length token ≡ 16

-- The parts of a packet are those it was joined of.
module _ (S : Suite) (j : Json) (token nonce box mac : Bytes) (t : length token ≡ 16)
    (n : length nonce ≡ 4) (m : length mac ≡ 4) where
  abbrev body : Bytes
  body = token ++ (nonce ++ (box ++ mac))

  body_length : length body ≡ 24 + length box
  body_length = omega (
    arith,
    t,
    n,
    m,
    length-append token (nonce ++ (box ++ mac)),
    length-append nonce (box ++ mac),
    length-append box mac,
  )

  behind_token : drop 16 body ≡ nonce ++ (box ++ mac)
  behind_token = drop-append token (nonce ++ (box ++ mac)) t

  nonce_is : nonce_part S j body ≡ nonce
  nonce_is = ap (take 4) behind_token ∙ take-append nonce (box ++ mac) n

  behind_nonce : drop 20 body ≡ box ++ mac
  behind_nonce =
      ap (drop 20) (sym (append_assoc token nonce (box ++ mac)))
      ∙ drop-append (token ++ nonce) (box ++ mac) {n = 20}
          (omega (arith, t, n, length-append token nonce))

  box_is : box_part S j body ≡ box
  box_is =
      ap (take (inner_len S j body)) behind_nonce ∙ take-append box mac (omega (arith, body_length))

  mac_is : mac_part S j body ≡ mac
  mac_is =
      ap (drop (16 + 4 + inner_len S j body))
        (sym (append_assoc token nonce (box ++ mac)) ∙ sym (append_assoc (token ++ nonce) box mac))
      ∙ drop-append ((token ++ nonce) ++ box) mac (
          omega (
            arith,
            t,
            n,
            body_length,
            length-append token nonce,
            length-append (token ++ nonce) box,
          ))

module _ (S : Suite) (j : Json) (laws : IsSymmetric S) (key token nonce inner mac : Bytes)
    (t : length token ≡ 16) (n : length nonce ≡ 4) (m : length mac ≡ 4)
    (folded : fold (S.hmac (key ++ nonce) (S.ctr key (wide nonce) inner)) 4 ≡ some mac) where
  abbrev box : Bytes
  box = S.ctr key (wide nonce) inner

  encrypts_to :
      (a : State S) (pkt : Packet)
      → a.line_encryption_key ≡ some key
      → a.remote_token ≡ some token
      → encode j pkt ≡ Coder.ok inner
      → length inner ≤ 1474
      → encrypt_packet S j nonce pkt a ≡ ok (outer_of S j token nonce box mac)
  unfolding encrypt_packet
  encrypts_to a pkt k w e fits =
      let ready : can_encrypt_packet S a ≡ true = (λ i. is_some (k i) && is_some (w i)) in
      let room : ltb 1500 (16 + 4 + length inner + 4) ≡ false = ground arith in
      let done : sealed S j (nil_or a.remote_token) (nil_or a.line_encryption_key) nonce inner
          ≡ ok (outer_of S j token nonce box mac) =
        (λ i. sealed S j (nil_or (w i)) (nil_or (k i)) nonce inner)
        ∙ ap (λ o. some_or panics o (λ mac. ok (outer_of S j token nonce box mac))) folded in
      rw (ready) (
        ap
          (λ o. then_lob o (λ inner.
            with_len (16 + 4 + length inner + 4)
              (sealed S j (nil_or a.remote_token) (nil_or a.line_encryption_key) nonce inner)))
          e
        ∙ rw (room) done)

  abbrev check : Bool → Bytes → Bytes → Answer Packet
  check same nonce' box' =
      if not same
      then invalid_packet
      else then_lob (decode j (S.ctr key (wide nonce') box')) (λ p. ok p)

  opens :
      (pkt : Packet)
      → decode j inner ≡ Coder.ok pkt
      → open_with S j key (token ++ (nonce ++ (box ++ mac))) ≡ ok pkt
  opens pkt e =
      let whole = token ++ (nonce ++ (box ++ mac)) in
      let nonce_of = nonce_is S j token nonce box mac t n m in
      let box_of = box_is S j token nonce box mac t n m in
      let mac_of = mac_is S j token nonce box mac t n m in
      (λ i.
        some_or panics (fold (S.hmac (key ++ nonce_of i) (box_of i)) 4)
          (λ mac'. check (bytes_eq (mac_of i) mac') (nonce_of i) (box_of i)))
      ∙ ap (λ o. some_or panics o (λ mac'. check (bytes_eq mac mac') nonce box)) folded
      ∙ ap (λ same. check same nonce box) (bytes_eq_refl mac)
      ∙ ap (λ o. then_lob (decode j o) (λ p. ok p)) (laws.ctr_ctr key (wide nonce) inner)
      ∙ ap (λ o. then_lob o (λ p. ok p)) e

  decrypts_to :
      (b : State S) (pkt : Packet)
      → b.line_decryption_key ≡ some key
      → b.local_token ≡ some token
      → decode j inner ≡ Coder.ok pkt
      → length inner ≤ 1474
      → decrypt_packet S j (outer_of S j token nonce box mac) b ≡ ok pkt
  unfolding decrypt_packet is_zero
  decrypts_to b pkt k f e fits =
      let size = body_length S j token nonce box mac t n m in
      let of_box = laws.length_ctr key (wide nonce) inner in
      let whole = token ++ (nonce ++ (box ++ mac)) in
      let ready : can_decrypt_packet S b ≡ true = (λ i. is_some (k i) && is_some (f i)) in
      let long : ltb (length whole) 24 ≡ false = ground (arith, size) in
      let room : ltb 1500 (length whole) ≡ false = ground (arith, size, of_box) in
      let found : bytes_eq (take 16 whole) (nil_or b.local_token) ≡ true =
        (λ i. bytes_eq (take-append token (nonce ++ (box ++ mac)) t i) (nil_or (f i)))
        ∙ bytes_eq_refl token in
      rw (ready, long, room, found) (ap (λ k. open_with S j (nil_or k) whole) k ∙ opens pkt e)

-- With the contract of AES and HMAC, a packet with a header of known fields, whose text and body fit 1472
-- bytes, and 4 bytes from the source of random numbers: what one side encrypts and signs, the other side of a link verifies and decrypts
-- to the same packet.
pub decrypt_packet-encrypt_packet_cs1a :
    (S : Suite) (j : Json) (a b : State S) (nonce : Bytes) (pkt : Packet) (text : Bytes)
    → IsSymmetric S
    → Linked S a b
    → length nonce ≡ 4
    → IsCanonical pkt.header
    → write_to j pkt.header ≡ some text
    → 2 + (length text + length pkt.body) ≤ 1474
    → (outer : Packet) × (encrypt_packet S j nonce pkt a ≡ ok outer)
      × (decrypt_packet S j outer b ≡ ok pkt)
decrypt_packet-encrypt_packet_cs1a S j a b nonce pkt text laws link n k w fits =
    let (inner, done, back, short) = encode_bound j pkt text k w (omega arith) in
    let box = S.ctr link.key (wide nonce) inner in
    let sum = S.hmac (link.key ++ nonce) box in
    let (mac, folded, m) =
      fold-returns 3 4 sum (omega arith) refl (laws.length_hmac (link.key ++ nonce) box) in
    let small : length inner ≤ 1474 = omega (arith, short, fits) in
    (
      outer_of S j link.token nonce box mac,
      encrypts_to S j laws link.key link.token nonce inner mac link.token_length n m folded a pkt
          link.encrypts link.writes done small,
      decrypts_to S j laws link.key link.token nonce inner mac link.token_length n m folded b pkt
          link.decrypts link.found_by back small,
    )
