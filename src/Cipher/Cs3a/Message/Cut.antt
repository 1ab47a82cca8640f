-- ===== src/Cipher/Cs3a/Message/Cut.antt =====
-- e3x/cipherset/cs3a/cs3a_cipher.go: the parts of a message.
use gogotelehash.Cipher.Cs3a.{Nacl}
use gogotelehash.Cipher.Cs3a.Message.{
  line_part, nonce_part, box_len, box_part, signed_part, mac_part,
}
use gogotelehash.Lob.Packet.{Bytes}
use mathlib.Core.List.{append_assoc}
use gogotelehash.Prelude.{
  ◌≡◌, ap, length, ◌+◌, sym, ◌∙◌, ◌++◌, arith, take, drop, length-append, take-append, drop-append,
}

-- The parts of a message are those it was joined of.
pub record Cut (N : Nacl) (line nonce box mac : Bytes) : Type 0 where
  pub line_is : line_part N ((line ++ (nonce ++ box)) ++ mac) ≡ line
  pub nonce_is : nonce_part N ((line ++ (nonce ++ box)) ++ mac) ≡ nonce
  pub box_is : box_part N ((line ++ (nonce ++ box)) ++ mac) ≡ box
  pub signed_is : signed_part N ((line ++ (nonce ++ box)) ++ mac) ≡ line ++ (nonce ++ box)
  pub mac_is : mac_part N ((line ++ (nonce ++ box)) ++ mac) ≡ mac

module _ (N : Nacl) (line nonce box mac : Bytes) (l : length line ≡ 32) (n : length nonce ≡ 24)
    (m : length mac ≡ 16) where
  abbrev front : Bytes
  front = line ++ (nonce ++ box)

  abbrev joined : Bytes
  joined = front ++ mac

  length-front : length front ≡ 56 + length box
  length-front = omega (arith, length-append line (nonce ++ box), length-append nonce box)

  box_len-joined : box_len N joined ≡ length box
  box_len-joined = omega (arith, length-front, length-append front mac)

  by_line : joined ≡ line ++ (nonce ++ (box ++ mac))
  by_line = append_assoc line (nonce ++ box) mac ∙ ap (λ r. line ++ r) (append_assoc nonce box mac)

  line_part-joined : line_part N joined ≡ line
  line_part-joined = ap (take 32) by_line ∙ take-append line (nonce ++ (box ++ mac)) l

  behind_line : drop 32 joined ≡ nonce ++ (box ++ mac)
  behind_line = ap (drop 32) by_line ∙ drop-append line (nonce ++ (box ++ mac)) l

  nonce_part-joined : nonce_part N joined ≡ nonce
  nonce_part-joined = ap (take 24) behind_line ∙ take-append nonce (box ++ mac) n

  behind_nonce : drop 56 joined ≡ box ++ mac
  behind_nonce =
      ap (drop 56) (by_line ∙ sym (append_assoc line nonce (box ++ mac)))
      ∙ drop-append (line ++ nonce) (box ++ mac) {n = 56} (omega (arith, length-append line nonce))

  box_part-joined : box_part N joined ≡ box
  box_part-joined =
      ap (λ r. take (box_len N joined) r) behind_nonce ∙ take-append box mac (sym box_len-joined)

  signed_part-joined : signed_part N joined ≡ front
  signed_part-joined = take-append front mac (omega (arith, length-front, box_len-joined))

  mac_part-joined : mac_part N joined ≡ mac
  mac_part-joined = drop-append front mac (omega (arith, length-front, box_len-joined))

  pub cut : Cut N line nonce box mac
  cut = record {
    line_is = line_part-joined;
    nonce_is = nonce_part-joined;
    box_is = box_part-joined;
    signed_is = signed_part-joined;
    mac_is = mac_part-joined;
  }
